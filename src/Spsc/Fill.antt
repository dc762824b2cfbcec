-- ===== src/Spsc/Fill.antt =====
-- The copies of a push into the slots, and the release store that publishes them.
use shm_spsc.Base.{
  ℕ, ◌+◌, ◌<◌, ◌≤◌, ◌≡◌, refl, sym, ap, ◌∙◌, List, [], ◌∷◌, ◌++◌, arith, length, length-append, set,
  length-set,
}
use mathlib.Core.List.{append-nil, append_assoc}
use shm_spsc.Spsc.{store, ProducerPc, ConsumerPc, System}
use shm_spsc.Ring.Index.{advance}
use shm_spsc.Spsc.Places.{slot_of, slot_of-add}
use shm_spsc.Spsc.Runs.{spots}
use shm_spsc.Spsc.Step.{ProducerStep}
use shm_spsc.Spsc.Produce
use shm_spsc.Spsc.ProduceN
use shm_spsc.Spsc.Invariant.{ConsumerAt, Inv}
use shm_spsc.Spsc.Stores.{
  extend, extend_last, extend_old, store-IsIndex, take-append, take-drop-append, Stored-set,
}

module _ {ℓ} {A : Type ℓ} {cap : ℕ} {s : System A} (v : Inv cap s) where
  some_slot : 0 < cap
  some_slot = omega (arith, v.room)

  abbrev w : ℕ
  w = v.wt s.write.last

  abbrev r : ℕ
  r = v.rt s.read.last

  r-le-w : r ≤ w
  r-le-w = omega (
    arith,
    v.consumer.behind,
    v.write_index.grows s.consumer.seen s.write.last v.consumer.seen_in (omega arith),
  )

  -- How far a batch may go, in terms of what has really been popped.
  lim-le : v.rt s.producer.seen ≤ r
  lim-le = v.read_index.grows s.producer.seen s.read.last v.producer.seen_in (omega arith)

  -- The first of the copies that are left.
  next_copy :
      {i : ℕ} {x : A} {todo : List (ℕ × A)} {batch : List A} (rest : List A)
      → batch ≡ v.written ++ rest
      → (i, x) ∷ todo ≡ spots cap (slot_of cap (w + length v.written)) rest
      → (ys : List A) × (i ≡ slot_of cap (w + length v.written))
        × (batch ≡ (v.written ++ x ∷ []) ++ ys)
        × (todo ≡ spots cap (slot_of cap (w + length (v.written ++ x ∷ []))) ys)
        × (length v.written < length batch)
  unfolding spots
  next_copy [] b t = cc
  next_copy {i} {x} {todo} {batch} (y ∷ ys) b t =
      let same : x ≡ y = cc in
      let here : i ≡ slot_of cap (w + length v.written) = cc in
      let after : todo ≡ spots cap (advance cap (slot_of cap (w + length v.written)) 1) ys = cc in
      let len = length-append v.written (x ∷ []) in
      let e : w + length (v.written ++ x ∷ []) ≡ (w + length v.written) + 1 = omega arith in
      (
        ys,
        here,
        b ∙ ap (λ z. v.written ++ z ∷ ys) (sym same) ∙ sym (append_assoc v.written (x ∷ []) ys),
        after
            ∙ ap (λ k. spots cap k ys)
                (sym (
                  ap (slot_of cap) e
                  ∙ slot_of-add cap some_slot (w + length v.written) 1 some_slot)),
        omega (arith, ap length b, length-append v.written (y ∷ ys)),
      )

  pub copy-Inv :
      {i next : ℕ} {x : A} {todo : List (ℕ × A)} {batch : List A}
      → s.producer.pc ≡ ProducerPc.filling ((i, x) ∷ todo) batch next
      → Inv cap (record s {
        slots = set s.slots i x;
        producer = record s.producer { pc = ProducerPc.filling todo batch next };
      })
  copy-Inv {i} {x} e =
      let (rest, b, t, nx, lt) = rw e at v.producer.at in
      let (ys, here, b', t', more) = next_copy rest b t in
      let all = length-append s.sent v.written in
      let place : i ≡ slot_of cap (length (s.sent ++ v.written)) = rw (all, v.published) here in
      record {
        room = v.room;
        small = v.small;
        whole = omega (arith, v.whole, length-set s.slots i x);
        wt = v.wt;
        rt = v.rt;
        written = v.written ++ x ∷ [];
        write_index = v.write_index;
        read_index = v.read_index;
        producer = record {
          same = v.producer.same;
          seen_in = v.producer.seen_in;
          cached = v.producer.cached;
          ahead = v.producer.ahead;
          at = (ys, b', t', nx, lt);
        };
        consumer = v.consumer;
        published = v.published;
        delivered = v.delivered;
        stored = rw (← append_assoc s.sent v.written (x ∷ [])) (
            Stored-set cap r (s.sent ++ v.written) s.slots x i some_slot v.whole
              (omega (arith, r-le-w, v.published)) (omega (arith, v.published, lim-le)) place
              v.stored);
      }

  published_all :
      (batch rest : List A) (i : ℕ)
      → batch ≡ v.written ++ rest
      → [] ≡ spots cap i rest
      → batch ≡ v.written
  unfolding spots
  published_all batch [] i b t = b ∙ append-nil v.written
  published_all batch (x ∷ rest) i b t = cc

  -- More elements behind the published ones change nothing for the consumer.
  ConsumerAt-append :
      (lim : ℕ) (batch : List A) (pc : ConsumerPc A)
      → lim ≤ length s.sent
      → ConsumerAt cap r lim s.sent pc
      → ConsumerAt cap r lim (s.sent ++ batch) pc
  ConsumerAt-append lim batch ConsumerPc.idle h a = tt
  ConsumerAt-append lim batch (ConsumerPc.checking i) h a = a
  ConsumerAt-append lim batch (ConsumerPc.holding i) h a = a
  ConsumerAt-append lim batch (ConsumerPc.looked i out) h (e, lt, o) =
      (e, lt, o ∙ sym (take-drop-append 1 r s.sent batch (omega arith)))
  ConsumerAt-append lim batch (ConsumerPc.recounting n i) h a = a
  ConsumerAt-append lim batch (ConsumerPc.draining todo out next) h (o, t, nx, le) =
      (o ∙ sym (take-drop-append (length out) r s.sent batch (omega arith)), t, nx, le)

  pub publish-Inv :
      {next : ℕ} {batch : List A}
      → s.producer.pc ≡ ProducerPc.filling [] batch next
      → Inv cap (record s {
        write = store next s.write;
        sent = s.sent ++ batch;
        producer = record s.producer { pc = ProducerPc.idle };
      })
  publish-Inv {next} {batch} e =
      let (rest, b, t, nx, lt) = rw e at v.producer.at in
      let all : batch ≡ v.written = published_all batch rest _ b t in
      let total = w + length batch in
      let now = extend_last s.write v.wt total in
      let seen = extend_old s.write v.wt total s.consumer.seen v.consumer.seen_in in
      let known : v.wt s.consumer.seen ≤ w =
        v.write_index.grows s.consumer.seen s.write.last v.consumer.seen_in (omega arith) in
      record {
        room = v.room;
        small = v.small;
        whole = v.whole;
        wt = extend s.write v.wt total;
        rt = v.rt;
        written = [];
        write_index = store-IsIndex next total v.write_index nx (omega arith);
        read_index = v.read_index;
        producer = record {
          same = v.producer.same;
          seen_in = v.producer.seen_in;
          cached = v.producer.cached;
          ahead = rw now lt;
          at = refl;
        };
        consumer = record {
          same = v.consumer.same;
          seen_in = omega (arith, v.consumer.seen_in);
          cached = rw seen v.consumer.cached;
          behind = rw seen v.consumer.behind;
          at = rw seen (
              ConsumerAt-append (v.wt s.consumer.seen) batch s.consumer.pc
                (omega (arith, v.published)) v.consumer.at);
        };
        published = rw now (omega (arith, length-append s.sent batch, v.published));
        delivered =
            v.delivered ∙ sym (take-append r s.sent batch (omega (arith, r-le-w, v.published)));
        stored = rw (append-nil, all) v.stored;
      }

-- Every step of the producer keeps the invariant.
pub ProducerStep-Inv {ℓ} :
    {A : Type ℓ} {cap : ℕ} {s t : System A} → ProducerStep s t → Inv cap s → Inv cap t
ProducerStep-Inv (ProducerStep.push x e) v =
    Produce.moved v _ (Produce.begin_push-Inv v x (rw e at v.producer.at))
ProducerStep-Inv (ProducerStep.recheck {x} {w = i} {next} k e newer known) v =
    Produce.moved v _ (Produce.recheck_push-Inv v x i next k e newer known)
ProducerStep-Inv (ProducerStep.push_n src n given e) v =
    Produce.moved v _ (ProduceN.begin_push_n-Inv v src n given e)
ProducerStep-Inv (ProducerStep.recount {src} {n} {w = i} k e newer known) v =
    Produce.moved v _ (ProduceN.recheck_push_n-Inv v src n i k e newer known)
ProducerStep-Inv (ProducerStep.copy e) v = copy-Inv v e
ProducerStep-Inv (ProducerStep.publish e) v = publish-Inv v e
