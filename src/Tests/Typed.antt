-- ===== src/Tests/Typed.antt =====
-- typed/typed_encoder.go at concrete integers.
use gmdb.Common.{[], ok, ◌≡◌, arith}
use Prim.Native.Nat.{compare}
use gmdb.Common.Integers.{pos, negsuc, compare_ℤ}
use gmdb.Common.Order.{compare_bytes}
use gmdb.Typed.{
  append_int64, append_int32, decode_int64, decode_int32, append_uint64, decode_uint64,
  append_uint32, decode_uint32,
}
use gmdb.Typed.Order.{encoders_order_and_back}

encoders_order_and_back_example :
    ((compare_bytes (append_int64 [] (negsuc 0)) (append_int64 [] (pos 0))
        ≡ compare_ℤ (negsuc 0) (pos 0))
      × (compare_bytes (append_int32 [] (negsuc 4)) (append_int32 [] (negsuc 2))
          ≡ compare_ℤ (negsuc 4) (negsuc 2)))
    × ((decode_int64 (append_int64 [] (negsuc 0)) ≡ ok (negsuc 0))
        × (decode_int32 (append_int32 [] (negsuc 4)) ≡ ok (negsuc 4)))
    × (compare_bytes (append_uint64 [] 255) (append_uint64 [] 256) ≡ compare 255 256)
    × (compare_bytes (append_uint32 [] 70000) (append_uint32 [] 3) ≡ compare 70000 3)
    × (decode_uint64 (append_uint64 [] 255) ≡ ok 255)
    × (decode_uint32 (append_uint32 [] 70000) ≡ ok 70000)
encoders_order_and_back_example =
    encoders_order_and_back (negsuc 0) (pos 0) (negsuc 4) (negsuc 2) 255 256 70000 3 (omega arith)
      (omega arith) (omega arith) (omega arith) (omega arith) (omega arith) (omega arith)
      (omega arith)
