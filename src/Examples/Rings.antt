-- ===== src/Examples/Rings.antt =====
-- A ring of 4096 bytes.
use nabu_iris.Common.{◌∷◌, [], ◌≡◌, arith, refl, enodata, List}
use nabu_iris.Queue.{IfaceQueue, queue_write, queue_read}
use nabu_iris.Queue.Bytes.{bytes}
use nabu_iris.Queue.Valid.{Holds}
use nabu_iris.Queue.Bounds.{write_in_bounds}
use nabu_iris.Queue.Fifo.{write-Holds, exact_fill_lost}
use nabu_iris.Queue.Spec
use nabu_iris.Queue.Runs.{Call, put, get, run, spec_run, NeverFills, run_refines}
use nabu_iris.Examples.Data.{
  empty_ring, empty_ring-Holds, small_packet, small_packet-IsPacket, out_buffer,
}

abbrev calls : List Call
calls = put small_packet 8 ∷ put small_packet 8 ∷ get ∷ get ∷ get ∷ []

never_fills : NeverFills 4096 [] calls
unfolding Spec.put Spec.get
never_fills = (omega arith, (omega arith, tt))

run_refines_example : run 4096 empty_ring out_buffer calls ≡ spec_run 4096 [] calls
run_refines_example =
    run_refines calls 4096 empty_ring out_buffer [] empty_ring-Holds
      (small_packet-IsPacket, (small_packet-IsPacket, tt)) never_fills

abbrev one_ring : IfaceQueue
one_ring = (queue_write 4096 empty_ring small_packet 8).1

one_ring-Holds : Holds 4096 one_ring (bytes small_packet 0 8 ∷ [])
one_ring-Holds =
    (write-Holds 4096 empty_ring small_packet 8 [] empty_ring-Holds small_packet-IsPacket
      (omega arith)).1

write_in_bounds_example : (queue_write 4096 empty_ring small_packet 8).1.ring 4096 ≡ 0
write_in_bounds_example =
    write_in_bounds 4096 empty_ring small_packet 8 4096 (omega arith) (omega arith) (omega arith)

exact_fill_lost_example :
    let (ret, q') = queue_write 4096 one_ring out_buffer 4088 in
    (ret ≡ 0) × Holds 4096 q' [] × ((queue_read 4096 q' out_buffer).0 ≡ enodata)
unfolding queue_write
exact_fill_lost_example =
    exact_fill_lost 4096 one_ring out_buffer out_buffer 4088 (bytes small_packet 0 8 ∷ [])
      one_ring-Holds refl (omega arith) (omega arith)
