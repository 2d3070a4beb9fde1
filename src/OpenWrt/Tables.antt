-- ===== src/OpenWrt/Tables.antt =====
-- Tables
