-- ===== src/Includes/Layout.antt =====
-- The layout of a file's headers that draws no message.
