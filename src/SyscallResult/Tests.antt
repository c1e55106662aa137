-- ===== src/SyscallResult/Tests.antt =====
-- The round trip at an error and at a value.
