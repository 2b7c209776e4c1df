-- ===== src/Ring/Tests.antt =====
-- src/ringbuf.c on concrete rings: test runs, and the theorems at inputs that meet their
-- hypotheses.
use native.Mathlib.Omega.{arith}
use libcopper.Base.{ℕ, ◌+◌, ◌-◌, ◌^◌, ◌≤◌, ◌≡◌, ◌≢◌, refl, some, none, true, List, [], ◌∷◌, ◌++◌}
use libcopper.Base.{length, ◌%◌, memcpy}
use libcopper.Error.{no_error, err_invalid, set_error}
use libcopper.Ring.{RingBuffer, copy_in, copy_out, write, write_all, read, read_all}
use libcopper.Ring.Queue
use libcopper.Ring.Queue.{Op, Call, wrote, got, refused}
use libcopper.Ring.Copy.{copy_in_lem}
use libcopper.Ring.Refine.{IsValid, contents}
use libcopper.Ring.Calls.{Holds, write_lem, write_all_lem, read_lem, read_all_lem}
use libcopper.Ring.Life.{init_accepts, empty_ring}
use libcopper.Ring.Client.{run, call, run_refines}
use libcopper.Ring.Threads.{World, Writer, filling, filled, draining, Reach, here, next, start}
use libcopper.Ring.Threads.{begin_write, copy_in_step, publish_step, begin_read}
use libcopper.Ring.Threads.Order.{delivers_in_order, no_data_race}

-- Four bytes of storage, the indices about to wrap round 2 ^ 32: 7 and 8 are held, and the next
-- byte goes to slot 1.
abbrev wrapped : RingBuffer
wrapped = record {
  buf = 8 ∷ 0 ∷ 0 ∷ 7 ∷ [];
  capacity = 4;
  mask = 3;
  head = 1;
  tail = 2 ^ 32 - 1;
  head_cache = 1;
  tail_cache = 2 ^ 32 - 1;
}

wrapped-IsValid : IsValid 2 wrapped
wrapped-IsValid = record {
  sized = record { small = omega arith; power = refl; masks = refl; storage = omega arith };
  head_agrees = refl;
  tail_agrees = refl;
  head_word = omega arith;
  tail_word = omega arith;
  holds = omega arith;
}

contents-wrapped : contents wrapped ≡ 7 ∷ 8 ∷ []
contents-wrapped = refl

abbrev script : List Call
script =
    record { op = Op.write; bytes = 1 ∷ 2 ∷ 3 ∷ [] }
    ∷ record { op = Op.write_all; bytes = 9 ∷ [] }
    ∷ record { op = Op.read; bytes = 0 ∷ 0 ∷ 0 ∷ [] }
    ∷ record { op = Op.read_all; bytes = 0 ∷ 0 ∷ [] }
    ∷ record { op = Op.read_all; bytes = 0 ∷ [] }
    ∷ []

run-wrapped :
    run wrapped script no_error
    ≡ some (wrote 2 ∷ refused ∷ got (7 ∷ 8 ∷ 1 ∷ []) ∷ refused ∷ got (2 ∷ []) ∷ [])
unfolding run call write write_all read read_all copy_in copy_out memcpy
run-wrapped = refl

null_arguments :
    (write none none 3 no_error ≡ some (0, none, set_error err_invalid "NULL argument" no_error))
    × (write (some wrapped) none 3 no_error
        ≡ some (0, some wrapped, set_error err_invalid "NULL argument" no_error))
    × (write_all (some wrapped) none 0 no_error ≡ some (true, some wrapped, no_error))
unfolding write write_all copy_in memcpy
null_arguments = (refl, refl, refl)

run_refines_example : run wrapped script no_error ≡ some (Queue.run 4 (7 ∷ 8 ∷ []) script)
run_refines_example = run_refines script no_error wrapped-IsValid

write_lem_example :
    (rb : RingBuffer) × (write (some wrapped) (some (1 ∷ 2 ∷ 3 ∷ [])) 3 no_error
      ≡ some (2, some rb, no_error))
    × Holds 2 wrapped rb (7 ∷ 8 ∷ 1 ∷ 2 ∷ [])
write_lem_example = write_lem wrapped-IsValid no_error (1 ∷ 2 ∷ 3 ∷ []) 3 (omega arith)

write_all_lem_example :
    (rb : RingBuffer) × (write_all (some wrapped) (some (1 ∷ 2 ∷ [])) 2 no_error
      ≡ some (true, some rb, no_error))
    × Holds 2 wrapped rb (7 ∷ 8 ∷ 1 ∷ 2 ∷ [])
write_all_lem_example = write_all_lem wrapped-IsValid no_error (1 ∷ 2 ∷ []) 2 (omega arith)

read_lem_example :
    (rb : RingBuffer) × (read (some wrapped) (some (0 ∷ 0 ∷ 5 ∷ [])) 3 no_error
      ≡ some (2, 7 ∷ 8 ∷ 5 ∷ [], some rb, no_error))
    × Holds 2 wrapped rb []
read_lem_example = read_lem wrapped-IsValid no_error (0 ∷ 0 ∷ 5 ∷ []) 3 (omega arith)

read_all_lem_example :
    (rb : RingBuffer) × (read_all (some wrapped) (some (0 ∷ [])) 1 no_error
      ≡ some (true, 7 ∷ [], some rb, no_error))
    × Holds 2 wrapped rb (8 ∷ [])
read_all_lem_example = read_all_lem wrapped-IsValid no_error (0 ∷ []) 1 (omega arith)

copy_in_lem_example : copy_in wrapped 3 (1 ∷ 2 ∷ []) 2 ≡ some (2 ∷ 0 ∷ 0 ∷ 1 ∷ [])
copy_in_lem_example = copy_in_lem wrapped-IsValid.sized 3 2 (omega arith) (1 ∷ 2 ∷ []) (omega arith)

abbrev storage : List ℕ
storage = 0 ∷ 0 ∷ 0 ∷ 0 ∷ []

-- A writer that has sent two bytes and begins another call, while a reader takes the two.
abbrev fresh : RingBuffer
fresh = empty_ring storage 4

fresh-IsValid : IsValid 2 fresh
fresh-IsValid = (init_accepts 2 storage no_error (omega arith) (omega arith)).1

abbrev first_call : World
first_call = record (start fresh) { writer = filling (6 ∷ 5 ∷ []) 2 }

abbrev first_copied : World
first_copied = record first_call {
  ring = record fresh { buf = 6 ∷ 5 ∷ 0 ∷ 0 ∷ [] };
  writer = filled (6 ∷ 5 ∷ []) 2;
}

abbrev first_sent : World
first_sent = record first_copied {
  ring = record fresh { buf = 6 ∷ 5 ∷ 0 ∷ 0 ∷ []; head = 2; head_cache = 2 };
  writer = Writer.idle;
  sent = 6 ∷ 5 ∷ [];
}

abbrev both_busy : World
both_busy = record first_sent {
  writer = filling (4 ∷ 3 ∷ 2 ∷ []) 2;
  reader = draining (0 ∷ 0 ∷ []) 2;
}

reaches-first_call : Reach (start fresh) first_call
reaches-first_call =
    next here (begin_write (start fresh) (6 ∷ 5 ∷ []) 2 refl (omega arith) (omega arith))

reaches-both_busy : Reach (start fresh) both_busy
unfolding copy_in memcpy
reaches-both_busy =
    next
      (next
        (next
          (next reaches-first_call
            (copy_in_step first_call (6 ∷ 5 ∷ []) 2 (6 ∷ 5 ∷ 0 ∷ 0 ∷ []) refl refl))
          (publish_step first_copied (6 ∷ 5 ∷ []) 2 refl))
        (begin_write first_sent (4 ∷ 3 ∷ 2 ∷ []) 3 refl (omega arith) (omega arith)))
      (begin_read (record first_sent { writer = filling (4 ∷ 3 ∷ 2 ∷ []) 2 }) (0 ∷ 0 ∷ []) 2 refl
        (omega arith) (omega arith))

delivers_in_order_example :
    (rest : List ℕ) × (both_busy.sent ≡ both_busy.received ++ rest) × (length rest ≤ 4)
delivers_in_order_example = delivers_in_order fresh-IsValid refl refl reaches-both_busy

no_data_race_example : (both_busy.ring.head_cache + 0) % 4 ≢ (both_busy.ring.tail_cache + 1) % 4
no_data_race_example =
    no_data_race fresh-IsValid refl refl reaches-both_busy 0 1 (omega arith) (omega arith)
