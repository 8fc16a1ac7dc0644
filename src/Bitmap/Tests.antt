-- ===== src/Bitmap/Tests.antt =====
-- Flag 9 of a map of bytes that are all 0x55.
use bloreos.Base.{◌≡◌, true, Ram, if◌then◌else◌, ◌==◌, arith}
use bloreos.Bitmap.{bitmap_test, bitmap_on}
use bloreos.Bitmap.Laws.{IsBytes, bitmap_test-on}

abbrev striped : Ram
striped a = 0x55

striped-IsBytes : IsBytes striped
striped-IsBytes a = omega arith

nine_on : bitmap_test (bitmap_on striped 9) 9 ≡ (if 9 == 9 then true else bitmap_test striped 9)
nine_on = bitmap_test-on striped 9 9 striped-IsBytes
