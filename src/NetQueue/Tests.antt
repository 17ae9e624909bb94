-- ===== src/NetQueue/Tests.antt =====
-- Examples for the packet queue of kernel/net_queue.cpp.
use sabaka_os.Common.{◌+◌, ◌≡◌, ◌⊎◌, arith, true, false, [], ◌∷◌, slice, if◌then◌else◌, ◌==◌}
use sabaka_os.NetQueue.{NetPacket, NetQueue, netq_enqueue, netq_dequeue}
use sabaka_os.NetQueue.Fifo.{
  IsValid, contents, payload, fifo_push, netq_enqueue_refines, netq_dequeue_refines,
}

abbrev no_packet : NetPacket
no_packet = record { bytes = λ i. 0; len = 0 }

-- Two packets wait, of which the second is past the wrap.
abbrev wrapped : NetQueue
wrapped = record {
  slots = λ i.
      if i == 30
      then record { bytes = λ k. k + 65; len = 3 }
      else record { bytes = λ k. 90; len = 2 };
  head = 1;
  tail = 30;
}

wrapped-IsValid : IsValid wrapped
wrapped-IsValid = record { head_in = omega arith; tail_in = omega arith }

netq_enqueue_refines_example :
    let (q', taken) = netq_enqueue wrapped (λ k. k) 4 in
    (contents q', taken) ≡ fifo_push (contents wrapped) (slice (λ k. k) 0 4)
netq_enqueue_refines_example = netq_enqueue_refines (λ k. k) 4 wrapped-IsValid

netq_dequeue_refines_example :
    let (q', p, taken) = netq_dequeue wrapped no_packet in
    ((taken ≡ true) × (contents wrapped ≡ payload p ∷ contents q'))
    ⊎ ((taken ≡ false) × (contents wrapped ≡ []) × (q' ≡ wrapped) × (p ≡ no_packet))
netq_dequeue_refines_example = netq_dequeue_refines no_packet wrapped-IsValid
