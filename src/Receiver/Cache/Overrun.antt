-- ===== src/Receiver/Cache/Overrun.antt =====
-- A request of more than half of the cache (receiver/src/data_cache.cpp, `CleanOldSlots`): the loop
-- over the slots stops in the old row, before the slots at the start of the buffer.
