-- ===== src/IntegerList.antt =====
-- The memory and the spin lock of the sample driver, src/SampleWdmDriver/src.
pub mod Memory
