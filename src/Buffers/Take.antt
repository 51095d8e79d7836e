-- ===== src/Buffers/Take.antt =====
-- Which class `GetBuffer` takes a buffer from.
