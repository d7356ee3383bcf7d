-- ===== src/Vmm/Range.antt =====
-- The loop of `vmm_space_raw_chprot_range` of kernel/mem/vmm.c, over all segments.
use stanix.Errno.{Errno}
