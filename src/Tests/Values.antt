-- ===== src/Tests/Values.antt =====
-- User addresses: a buffer that ends at the kernel, one that wraps around, and a string at 10.
use kerosene.Base.{◌≡◌, refl, true, false, ◌==◌, if◌then◌else◌}
use kerosene.Libc.Memory.{Mem}
use kerosene.Kutils.{validate_user_buffer}

abbrev mem : Mem
mem a = if a == 10 then b'a' else 0

wraps : validate_user_buffer true 4294967000 500 ≡ false
unfolding validate_user_buffer
wraps = refl
