-- ===== src/Irq/Tests.antt =====
-- Runs of the interrupt tables, and their theorems at concrete inputs.
use morion_os.Prelude.{◌≡◌, refl, true, false, some, length, set, replicate}
use morion_os.Irq.{
  Irqs, fresh, register_vector, is_registered_by, take_pending_any, any_max_domains,
  msi_vector_count,
}
use morion_os.Irq.Waiting.{Found, take_pending_any-Found}

-- Domain 3 has registered the vectors 80 and 82, and 82 is pending.
abbrev wired : Irqs
wired = record (register_vector (register_vector fresh 80 3) 82 3) {
  pending = set (replicate 256 false) 82 true;
}

takes_the_second : (take_pending_any wired 7 3).1 ≡ some 82
unfolding take_pending_any fresh register_vector is_registered_by
takes_the_second = refl

take_pending_any-Found_example : Found wired 7 3 0 msi_vector_count (take_pending_any wired 7 3)
take_pending_any-Found_example = take_pending_any-Found wired 7 3

wired_masks : length wired.any_mask ≡ any_max_domains
unfolding fresh register_vector
wired_masks = refl
