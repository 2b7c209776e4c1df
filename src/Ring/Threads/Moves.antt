-- ===== src/Ring/Threads/Moves.antt =====
-- The copying and publishing steps of the two threads of src/ringbuf.c keep the invariant.
use mathlib.Core.Path.{ap₂, subst}
use mathlib.Core.Option.{some-injective}
use libcopper.Base.{ℕ, ◌+◌, ◌-◌, ◌%◌, ◌≤◌, ◌≡◌, sym, ap, ◌∙◌, arith}
use libcopper.Base.{
  List, ◌++◌, append_assoc, length, take, drop, some, length-append, length-take, take-append,
}
use libcopper.Ring.{copy_in, copy_out, publish, consume}
use libcopper.Ring.Window.{window, store, window-store_before, window-store_self, window-add}
use libcopper.Ring.Window.{length-window, length-store, window_cong, store_cong}
use libcopper.Ring.Copy.{copy_in_lem, copy_out_lem}
use libcopper.Ring.Refine.{u32_slot}
use libcopper.Ring.Threads.{World, Writer, Reader, filling, filled, draining, drained}
use libcopper.Ring.Threads.Safety.{IsSound, WriterOk, ReaderOk, in_flight, out_flight}

module _ {k : ℕ} {w : World} (s : IsSound k w) where
  abbrev cap : ℕ
  cap = w.ring.capacity

  abbrev w_pos : ℕ
  w_pos = length w.sent

  abbrev r_pos : ℕ
  r_pos = length w.received

  abbrev stored : List ℕ → List ℕ
  stored bytes = store cap w.ring.buf w_pos bytes

  -- The slots of the masked index are those of the position.
  pub head_slot : w.ring.head_cache % cap ≡ w_pos % cap
  head_slot = ap (λ t. t % cap) s.head_cache_at ∙ u32_slot s.sized w_pos

  pub tail_slot : w.ring.tail_cache % cap ≡ r_pos % cap
  tail_slot = ap (λ t. t % cap) s.tail_cache_at ∙ u32_slot s.sized r_pos

  module _ (bytes : List ℕ) (n : ℕ) where
    pub writer_has : w.writer ≡ filling bytes n → n ≤ length bytes
    writer_has e = subst (WriterOk cap w.ring.buf w_pos) e s.writer_ok

    pub writer_fits : w.writer ≡ filling bytes n → w_pos + n ≤ r_pos + cap
    writer_fits e = omega (arith, s.room, ap in_flight e)

    -- The copy of a call in flight succeeds, and stores behind the writer's position.
    pub copy_in_sound :
        w.writer ≡ filling bytes n
        → copy_in w.ring w.ring.head_cache bytes n ≡ some (stored (take n bytes))
    copy_in_sound e =
        copy_in_lem s.sized w.ring.head_cache n (omega (arith, writer_fits e, s.order)) bytes
          (writer_has e)
        ∙ ap some (store_cong cap w.ring.buf w.ring.head_cache w_pos (take n bytes) head_slot)

    -- A copy into free slots does not touch what a reader copies out.
    reader_keeps :
        (r : Reader)
        → r_pos + out_flight r ≤ w_pos
        → w_pos + n ≤ r_pos + cap
        → ReaderOk cap w.ring.buf r_pos r
        → ReaderOk cap (stored (take n bytes)) r_pos r
    reader_keeps Reader.idle h room ok = tt
    reader_keeps (draining out m) h room ok = ok
    reader_keeps (drained out m) h room ok =
        ok
        ∙ sym (
            window-store_before cap w.ring.buf r_pos m w_pos (take n bytes) h
              (omega (arith, length-take n bytes)))

    after_copy_in :
        w.writer ≡ filling bytes n
        → IsSound k (record w {
          ring = record w.ring { buf = stored (take n bytes) };
          writer = filled bytes n;
        })
    after_copy_in e =
        let has = writer_has e in
        let fits = writer_fits e in
        let count : length (take n bytes) ≡ n = omega (arith, length-take n bytes) in
        record {
          sized = record {
            small = s.sized.small;
            power = s.sized.power;
            masks = s.sized.masks;
            storage =
                omega (arith, s.sized.storage, length-store cap w.ring.buf w_pos (take n bytes));
          };
          head_at = s.head_at;
          head_cache_at = s.head_cache_at;
          tail_at = s.tail_at;
          tail_cache_at = s.tail_cache_at;
          order = s.order;
          room = fits;
          fifo =
              s.fifo
              ∙ ap (λ t. w.received ++ t)
                  (sym (
                    window-store_before cap w.ring.buf r_pos (w_pos - r_pos) w_pos (take n bytes)
                      (omega (arith, s.order)) (omega arith)));
          writer_ok = (
            has,
            ap (window cap (stored (take n bytes)) w_pos) (sym count)
                ∙ window-store_self cap w.ring.buf w_pos (take n bytes) (omega (arith, s.order))
                    s.sized.storage,
          );
          reader_ok = reader_keeps w.reader s.order fits s.reader_ok;
        }

    pub copy_in-IsSound :
        (buf : List ℕ)
        → w.writer ≡ filling bytes n
        → copy_in w.ring w.ring.head_cache bytes n ≡ some buf
        → IsSound k (record w { ring = record w.ring { buf = buf }; writer = filled bytes n })
    copy_in-IsSound buf e copied =
        subst
          (λ b. IsSound k (record w { ring = record w.ring { buf = b }; writer = filled bytes n }))
          (some-injective _ _ (sym (copy_in_sound e) ∙ copied)) (after_copy_in e)

    pub publish-IsSound :
        w.writer ≡ filled bytes n
        → IsSound k (record w {
          ring = publish w.ring n;
          writer = Writer.idle;
          sent = w.sent ++ take n bytes;
        })
    publish-IsSound e =
        let ok : WriterOk cap w.ring.buf w_pos (filled bytes n) =
          subst (WriterOk cap w.ring.buf w_pos) e s.writer_ok in
        let fits : w_pos + n ≤ r_pos + cap = omega (arith, s.room, ap in_flight e) in
        let grown : length (w.sent ++ take n bytes) ≡ w_pos + n =
          omega (arith, length-append w.sent (take n bytes), length-take n bytes, ok.0) in
        record {
          sized = record {
            small = s.sized.small;
            power = s.sized.power;
            masks = s.sized.masks;
            storage = s.sized.storage;
          };
          head_at = omega (arith, s.head_cache_at, grown);
          head_cache_at = omega (arith, s.head_cache_at, grown);
          tail_at = s.tail_at;
          tail_cache_at = s.tail_cache_at;
          order = omega (arith, s.order, grown);
          room = omega (arith, fits, grown);
          fifo =
              ap (λ t. t ++ take n bytes) s.fifo
              ∙ append_assoc w.received (window cap w.ring.buf r_pos (w_pos - r_pos)) (take n bytes)
              ∙ ap (λ t. w.received ++ t)
                  (ap (λ t. window cap w.ring.buf r_pos (w_pos - r_pos) ++ t)
                      (sym ok.1 ∙ ap (λ t. window cap w.ring.buf t n) (omega (arith, s.order)))
                    ∙ sym (window-add cap w.ring.buf r_pos (w_pos - r_pos) n)
                    ∙ ap (window cap w.ring.buf r_pos) (omega (arith, grown, s.order)));
          writer_ok = tt;
          reader_ok = s.reader_ok;
        }

  module _ (out : List ℕ) (n : ℕ) where
    pub reader_has : w.reader ≡ draining out n → n ≤ length out
    reader_has e = subst (ReaderOk cap w.ring.buf r_pos) e s.reader_ok

    pub copy_out_sound :
        w.reader ≡ draining out n
        → copy_out w.ring w.ring.tail_cache out n
          ≡ some (window cap w.ring.buf r_pos n ++ drop n out)
    copy_out_sound e =
        copy_out_lem s.sized w.ring.tail_cache n (omega (arith, s.order, s.room, ap out_flight e))
          out (reader_has e)
        ∙ ap (λ t. some (t ++ drop n out))
            (window_cong cap w.ring.buf w.ring.tail_cache r_pos n tail_slot)

    after_copy_out :
        w.reader ≡ draining out n
        → IsSound k (record w { reader = drained (window cap w.ring.buf r_pos n ++ drop n out) n })
    after_copy_out e =
        let taken = window cap w.ring.buf r_pos n in
        record {
          sized = s.sized;
          head_at = s.head_at;
          head_cache_at = s.head_cache_at;
          tail_at = s.tail_at;
          tail_cache_at = s.tail_cache_at;
          order = omega (arith, s.order, ap out_flight e);
          room = s.room;
          fifo = s.fifo;
          writer_ok = s.writer_ok;
          reader_ok =
              ap (λ t. take t (taken ++ drop n out)) (sym (length-window cap w.ring.buf r_pos n))
              ∙ take-append taken (drop n out);
        }

    pub copy_out-IsSound :
        (dst : List ℕ)
        → w.reader ≡ draining out n
        → copy_out w.ring w.ring.tail_cache out n ≡ some dst
        → IsSound k (record w { reader = drained dst n })
    copy_out-IsSound dst e copied =
        subst (λ d. IsSound k (record w { reader = drained d n }))
          (some-injective _ _ (sym (copy_out_sound e) ∙ copied)) (after_copy_out e)

    pub consume-IsSound :
        w.reader ≡ drained out n
        → IsSound k (record w {
          ring = consume w.ring n;
          reader = Reader.idle;
          received = w.received ++ take n out;
        })
    consume-IsSound e =
        let ok : ReaderOk cap w.ring.buf r_pos (drained out n) =
          subst (ReaderOk cap w.ring.buf r_pos) e s.reader_ok in
        let there : r_pos + n ≤ w_pos = omega (arith, s.order, ap out_flight e) in
        let grown : length (w.received ++ take n out) ≡ r_pos + n = omega (
          arith,
          length-append w.received (take n out),
          ap length ok,
          length-window cap w.ring.buf r_pos n,
        ) in
        record {
          sized = record {
            small = s.sized.small;
            power = s.sized.power;
            masks = s.sized.masks;
            storage = s.sized.storage;
          };
          head_at = s.head_at;
          head_cache_at = s.head_cache_at;
          tail_at = omega (arith, s.tail_cache_at, grown);
          tail_cache_at = omega (arith, s.tail_cache_at, grown);
          order = omega (arith, there, grown);
          room = omega (arith, s.room, grown);
          fifo =
              s.fifo
              ∙ ap (λ t. w.received ++ t)
                  (ap (window cap w.ring.buf r_pos) {x = w_pos - r_pos}
                      {y = n + (w_pos - r_pos - n)} (omega arith)
                    ∙ window-add cap w.ring.buf r_pos n (w_pos - r_pos - n)
                    ∙ ap₂ ◌++◌ (sym ok)
                        (ap₂ (window cap w.ring.buf) (sym grown) (omega (arith, grown))))
              ∙ sym (append_assoc w.received (take n out) _);
          writer_ok = s.writer_ok;
          reader_ok = tt;
        }
