-- ===== src/User.antt =====
-- The user programs. A C string is the list of its bytes before the NUL, `char`s being below 128.
pub mod Grep
mod Tests
