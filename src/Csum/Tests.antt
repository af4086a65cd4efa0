-- ===== src/Csum/Tests.antt =====
-- The checksum on a concrete text.
use mini_gdbstub.Base.{◌≡◌, refl, ◌%◌, codes, take}
use mini_gdbstub.Csum.{compute_checksum}
use mini_gdbstub.Csum.Laws.{total, checksum-total}

ok_sum : compute_checksum (codes "OK") 2 ≡ 0x9a
unfolding compute_checksum
ok_sum = refl

checksum-total_example : compute_checksum (codes "vCont?") 5 ≡ total (take 5 (codes "vCont?")) % 256
checksum-total_example = checksum-total (codes "vCont?") 5
