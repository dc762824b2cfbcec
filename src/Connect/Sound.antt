-- ===== src/Connect/Sound.antt =====
-- What a returned `attach` of include/shmspsc/ShmSpscQueue.h has checked.
use shm_spsc.Base.{
  ℕ, zero, suc, ◌+◌, ◌≡◌, refl, sym, ap, ◌∙◌, Bool, true, false, Option, none, some, List, leb,
  Bool-cases, inl, inr, ==_iff,
}
use shm_spsc.Base.Results.{Error, Result, ok, err}
use shm_spsc.Layout.{Role, Binary, ControlBlock}
use shm_spsc.Ring.{Segment, Handle}
use shm_spsc.Segment.{open_object}
use shm_spsc.Claim.{Attempt}
use shm_spsc.Attach.{no_handle, validate, bind}
use shm_spsc.Connect.{
  Host, ready_at, drop_segment, after_open, attach_loop, at_addr, bound_at, checked, joined, attach,
}

some-inj {ℓ} : {B : Type ℓ} {a b : B} → some a ≡ some b → a ≡ b
some-inj e = cc

ok-inj {ℓ} : {B : Type ℓ} {a b : B} → ok a ≡ ok b → a ≡ b
ok-inj e = cc

err-ok {ℓ} : {B : Type ℓ} {x : Error} {a : B} → err x ≡ ok a → ⊥
err-ok e = cc

module _ {S : Type 0} (host : Host S) where
  -- A segment that is mapped, with a control block that is published.
  abbrev pub IsReady : Result Segment × S → Type 0
  IsReady (err e, s) = Unit
  IsReady (ok g, s) = ready_at host g.addr s ≡ true

  after_open-IsReady :
      (last : Bool) (g : Segment) (o : Result Segment × S)
      (again : Segment → S → Option (Result Segment × S)) (r : Result Segment × S)
      → ((g' : Segment) (t : S) → again g' t ≡ some r → IsReady r)
      → after_open host last g o again ≡ some r
      → IsReady r
  after_open-IsReady true g (err e, s) again r go h = rw (sym (some-inj h)) tt
  after_open-IsReady false g (err e, s) again r go h = go g (host.pause s) h
  after_open-IsReady true g (ok new, s) again r go h =
      elim (Bool-cases (ready_at host new.addr (drop_segment host g s))) [
        | inl up ↦ rw (sym (some-inj (rw up at h))) up
        | inr down ↦ rw (sym (some-inj (rw down at h))) tt
      ]
  after_open-IsReady false g (ok new, s) again r go h =
      let t = drop_segment host g s in
      elim (Bool-cases (ready_at host new.addr t)) [
        | inl up ↦ rw (sym (some-inj (rw up at h))) up
        | inr down ↦ go new (host.pause t) (rw down at h)
      ]

  attach_loop-IsReady :
      (fuel deadline : ℕ) (name : List ℕ) (g : Segment) (s : S) (r : Result Segment × S)
      → attach_loop host fuel deadline name g s ≡ some r
      → IsReady r
  unfolding attach_loop
  attach_loop-IsReady zero deadline name g s r h = absurd (cc)
  attach_loop-IsReady (suc fuel) deadline name g s r h =
      after_open-IsReady (leb deadline (host.now s)) g (open_object host.os name s)
        (attach_loop host fuel deadline name) r
        (λ g' t. attach_loop-IsReady fuel deadline name g' t r) h

  -- A handle that comes of `bind` on a published block that `validate` has accepted.
  abbrev pub Attached : Binary → List Attempt → Role → Handle → Type 0
  Attached b attempts role h =
      (g : Segment) × (addr : ℕ) × (s : S) × (c : ControlBlock) × (g.addr ≡ some addr)
      × ((host.view addr s).ready ≡ 1)
      × (validate b (host.view addr s) g.size ≡ none)
      × (bind (host.kill s) host.self attempts role (record no_handle { seg = g; ctrl = some addr })
            (host.view addr s) (host.view addr s)
          ≡ some (ok (h, c)))

  bound_sound :
      (g : Segment) (addr : ℕ) (s t : S) (h : Handle) (o : Option (Result (Handle × ControlBlock)))
      → bound_at host g addr s o ≡ some (ok h, t)
      → (c : ControlBlock) × (o ≡ some (ok (h, c)))
  bound_sound g addr s t h none e = cc
  bound_sound g addr s t h (some (err x)) e = cc
  bound_sound g addr s t h (some (ok (h', c))) e =
      let same : h' ≡ h = ok-inj (ap (λ q. q.0) (some-inj e)) in
      (c, ap (λ k. some (ok (k, c))) same)

  pub at_sound {ℓ} :
      {B : Type ℓ} (a : Option ℕ) (f : ℕ → Option B) (r : B)
      → at_addr a f none ≡ some r
      → (addr : ℕ) × (a ≡ some addr) × (f addr ≡ some r)
  at_sound none f r e = cc
  at_sound (some addr) f r e = (addr, refl, e)

  checked_sound :
      (b : Binary) (attempts : List Attempt) (role : Role) (g : Segment) (addr : ℕ) (s t : S)
      (h : Handle) (o : Option Error)
      → checked host b attempts role g addr s o ≡ some (ok h, t)
      → (o ≡ none)
        × (c : ControlBlock) × (bind
              (host.kill s)
              host.self
              attempts
              role
              (record no_handle { seg = g; ctrl = some addr })
              (host.view addr s)
              (host.view addr s)
            ≡ some (ok (h, c)))
  checked_sound b attempts role g addr s t h (some x) e =
      absurd (err-ok (ap (λ q. q.0) (some-inj e)))
  checked_sound b attempts role g addr s t h none e =
      let (c, done) = bound_sound g addr s t h _ e in (refl, c, done)

  joined_sound :
      (b : Binary) (attempts : List Attempt) (role : Role) (h : Handle) (t : S)
      (o : Option (Result Segment × S))
      → ((r : Result Segment × S) → o ≡ some r → IsReady r)
      → joined host b attempts role o ≡ some (ok h, t)
      → Attached b attempts role h
  joined_sound b attempts role h t none ready e = cc
  joined_sound b attempts role h t (some (err x, s)) ready e = cc
  joined_sound b attempts role h t (some (ok g, s)) ready e =
      let (addr, at, e') =
        at_sound g.addr
          (λ addr. checked host b attempts role g addr s (validate b (host.view addr s) g.size)) _
          e in
      let (good, c, done) =
        checked_sound b attempts role g addr s t h (validate b (host.view addr s) g.size) e' in
      let up : ready_at host (some addr) s ≡ true =
        ap (λ a. ready_at host a s) (sym at) ∙ ready (ok g, s) refl in
      (g, addr, s, c, at, (==_iff _ 1).0 up, good, done)

  -- If `attach` returns a handle, then it is what `bind` made of a segment whose block was published
  -- and which `validate` had accepted for this binary.
  pub attach_sound :
      (b : Binary) (fuel : ℕ) (attempts : List Attempt) (name : List ℕ) (role : Role)
      (timeout_ms : ℕ) (s t : S) (h : Handle)
      → attach host b fuel attempts name role timeout_ms s ≡ some (ok h, t)
      → Attached b attempts role h
  unfolding attach
  attach_sound b fuel attempts name role timeout_ms s t h e =
      joined_sound b attempts role h t _
        (λ r. attach_loop-IsReady fuel (host.now s + timeout_ms) name no_handle.seg s r) e
