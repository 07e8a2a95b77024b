-- ===== src/Ctl/Rows/Tables.antt =====
-- Every table of the control tool comes out aligned.
