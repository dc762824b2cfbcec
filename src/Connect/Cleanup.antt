-- ===== src/Connect/Cleanup.antt =====
-- What `attach` of include/shmspsc/ShmSpscQueue.h leaves of descriptors and mappings.
use shm_spsc.Base.{
  ℕ, zero, suc, ◌+◌, ◌≡◌, refl, sym, ap, ◌∙◌, Bool, true, false, Option, none, some, List, ◌∷◌,
  ◌++◌, leb, Bool-cases, inl, inr,
}
use shm_spsc.Base.Results.{Error, Result, ok, err}
use shm_spsc.Layout.{Role, Binary, ControlBlock}
use shm_spsc.Ring.{Segment, Handle}
use shm_spsc.Segment.{no_segment, open_object}
use shm_spsc.Attach.Binding.{bind-seg}
use shm_spsc.Segment.Laws.{Resources, Keeps}
use shm_spsc.Segment.Cleanup.{Opened, open_lem}
use shm_spsc.Claim.{Attempt}
use shm_spsc.Attach.{no_handle, validate, bind}
use shm_spsc.Connect.{
  Host, ready_at, drop_segment, after_open, attach_loop, at_addr, bound_at, checked, joined, attach,
}
use shm_spsc.Connect.Held.{HostLaws, owned, drop_lem, replace_lem}

some-inj {ℓ} : {B : Type ℓ} {a b : B} → some a ≡ some b → a ≡ b
some-inj e = cc

module _ {S : Type 0} (host : Host S) (r : Resources S) (name : List ℕ)
    (laws : HostLaws host r name) (Becomes : Bool → Bool → Type 0)
    (stays : (a : Bool) → Becomes a a)
    (chain : (a c d : Bool) → Becomes a c → Becomes c d → Becomes a d)
    (others : (s : S) → Becomes (r.present name s) (r.present name (host.pause s))) where
  -- Descriptors and mappings are what they were at `s`, and the presence of the object has become what
  -- others have made of it over the pauses.
  abbrev pub Kept : S → S → Type 0
  Kept s t =
      (r.fds t ≡ r.fds s) × (r.maps t ≡ r.maps s) × Becomes (r.present name s) (r.present name t)

  -- The same, with the mapping of `g` besides.
  abbrev pub KeptWith : S → Segment → S → Type 0
  KeptWith s g t =
      (r.fds t ≡ r.fds s)
      × (r.maps t ≡ owned g ++ r.maps s)
      × Becomes (r.present name s) (r.present name t)

  pub same_object :
      {s t u : S}
      → Becomes (r.present name s) (r.present name t)
      → r.present name u ≡ r.present name t
      → Becomes (r.present name s) (r.present name u)
  same_object p q = rw q p

  KeptWith-Keeps : (g : Segment) {s t u : S} → KeptWith s g t → Keeps r name t u → KeptWith s g u
  KeptWith-Keeps g (f, m, p) (f', m', q) = (f' ∙ f, m' ∙ m, same_object p q)

  paused : (g : Segment) {s t : S} → KeptWith s g t → KeptWith s g (host.pause t)
  paused g {t = t} (f, m, p) =
      let (f', m') = laws.pauses t in (f' ∙ f, m' ∙ m, chain _ _ _ p (others t))

  dropped :
      (g : Segment) (s t : S) → g.owner ≡ false → KeptWith s g t → Kept s (drop_segment host g t)
  dropped g s t other (f, m, p) =
      let (f', m', q) = drop_lem host r name laws g s t other m in (f' ∙ f, m', same_object p q)

  -- A segment that the loop has found is all that it leaves.
  abbrev Looped : S → Result Segment × S → Type 0
  Looped s (err e, t) = Kept s t
  Looped s (ok g, t) = KeptWith s g t × (g.owner ≡ false)

  -- Behind the `open` of an iteration: the new segment in place of the old.
  replaced :
      (g new : Segment) (s t u : S)
      → g.owner ≡ false
      → KeptWith s g t
      → Opened r name t (ok new, u)
      → KeptWith s new (drop_segment host g u) × (new.owner ≡ false)
  replaced g new s t u other (f, m, p) (f', p', addr, bytes, e, m') =
      let at = ap (λ (k : Segment). k.addr) e in
      let size = ap (λ (k : Segment). k.size) e in
      let (f'', m'', p'') =
        replace_lem host r name laws g new addr s u other at
          (m' ∙ ap (λ n. (addr, n) ∷ r.maps t) (sym size) ∙ ap (◌∷◌ (addr, new.size)) m) in
      ((f'' ∙ f' ∙ f, m'', same_object p (p'' ∙ p')), ap (λ (k : Segment). k.owner) e)

  after_open_lem :
      (last : Bool) (g : Segment) (s t : S) (o : Result Segment × S)
      (again : Segment → S → Option (Result Segment × S)) (res : Result Segment × S)
      → g.owner ≡ false
      → KeptWith s g t
      → Opened r name t o
      → ((g' : Segment) (u : S)
          → g'.owner ≡ false
          → KeptWith s g' u
          → again g' u ≡ some res
          → Looped s res)
      → after_open host last g o again ≡ some res
      → Looped s res
  after_open_lem true g s t (err e, u) again res other held opened go h =
      rw (sym (some-inj h)) (dropped g s u other (KeptWith-Keeps g held opened))
  after_open_lem false g s t (err e, u) again res other held opened go h =
      go g (host.pause u) other (paused g (KeptWith-Keeps g held opened)) h
  after_open_lem true g s t (ok new, u) again res other held opened go h =
      let (held', other') = replaced g new s t u other held opened in
      elim (Bool-cases (ready_at host new.addr (drop_segment host g u))) [
        | inl up ↦ rw (sym (some-inj (rw up at h))) (held', other')
        | inr down ↦
            rw (sym (some-inj (rw down at h))) (dropped new s (drop_segment host g u) other' held')
      ]
  after_open_lem false g s t (ok new, u) again res other held opened go h =
      let (held', other') = replaced g new s t u other held opened in
      let v = drop_segment host g u in
      elim (Bool-cases (ready_at host new.addr v)) [
        | inl up ↦ rw (sym (some-inj (rw up at h))) (held', other')
        | inr down ↦ go new (host.pause v) other' (paused new held') (rw down at h)
      ]

  attach_loop-Looped :
      (fuel deadline : ℕ) (g : Segment) (s t : S) (res : Result Segment × S)
      → g.owner ≡ false
      → KeptWith s g t
      → attach_loop host fuel deadline name g t ≡ some res
      → Looped s res
  unfolding attach_loop
  attach_loop-Looped zero deadline g s t res other held h = absurd (cc)
  attach_loop-Looped (suc fuel) deadline g s t res other held h =
      after_open_lem (leb deadline (host.now t)) g s t (open_object host.os name t)
        (attach_loop host fuel deadline name) res other held
        (open_lem host.os r name laws.os_laws t)
        (λ g' u other' held' e. attach_loop-Looped fuel deadline g' s u res other' held' e) h

  -- What an `attach` leaves that throws, and one that returns, with the mapping that its handle has.
  abbrev pub Joined : S → Result Handle × S → Type 0
  Joined s (err e, t) = Kept s t
  Joined s (ok h, t) = KeptWith s h.seg t × (h.seg.owner ≡ false)

  bound_at_lem :
      (g : Segment) (addr : ℕ) (s t : S) (o : Option (Result (Handle × ControlBlock)))
      (res : Result Handle × S)
      → g.owner ≡ false
      → KeptWith s g t
      → ((h : Handle) (c : ControlBlock) → o ≡ some (ok (h, c)) → h.seg ≡ g)
      → bound_at host g addr t o ≡ some res
      → Joined s res
  bound_at_lem g addr s t none res other held seg e = absurd (cc)
  bound_at_lem g addr s t (some (err x)) res other held seg e =
      rw (sym (some-inj e)) (dropped g s t other held)
  bound_at_lem g addr s t (some (ok (h, c))) res other held seg e =
      let same = seg h c refl in
      rw (sym (some-inj e)) (rw same (KeptWith-Keeps g held (laws.stores addr c t), other))

  checked_lem :
      (b : Binary) (attempts : List Attempt) (role : Role) (g : Segment) (addr : ℕ) (s t : S)
      (o : Option Error) (res : Result Handle × S)
      → g.owner ≡ false
      → KeptWith s g t
      → checked host b attempts role g addr t o ≡ some res
      → Joined s res
  checked_lem b attempts role g addr s t (some x) res other held e =
      rw (sym (some-inj e)) (dropped g s t other held)
  checked_lem b attempts role g addr s t none res other held e =
      let c = host.view addr t in
      let h = record no_handle { seg = g; ctrl = some addr } in
      bound_at_lem g addr s t (bind (host.kill t) host.self attempts role h c c) res other held
        (λ h' c' q. bind-seg (host.kill t) host.self attempts role h h' c c c' q) e

  at_addr_lem :
      (b : Binary) (attempts : List Attempt) (role : Role) (g : Segment) (a : Option ℕ) (s t : S)
      (res : Result Handle × S)
      → g.owner ≡ false
      → KeptWith s g t
      → at_addr a
          (λ addr. checked host b attempts role g addr t (validate b (host.view addr t) g.size))
          none
        ≡ some res
      → Joined s res
  at_addr_lem b attempts role g none s t res other held e = absurd (cc)
  at_addr_lem b attempts role g (some addr) s t res other held e =
      checked_lem b attempts role g addr s t (validate b (host.view addr t) g.size) res other held e

  joined_lem :
      (b : Binary) (attempts : List Attempt) (role : Role) (s : S) (o : Option (Result Segment × S))
      (res : Result Handle × S)
      → ((q : Result Segment × S) → o ≡ some q → Looped s q)
      → joined host b attempts role o ≡ some res
      → Joined s res
  joined_lem b attempts role s none res looped e = absurd (cc)
  joined_lem b attempts role s (some (err x, t)) res looped e =
      rw (sym (some-inj e)) (looped (err x, t) refl)
  joined_lem b attempts role s (some (ok g, t)) res looped e =
      let (held, other) = looped (ok g, t) refl in
      at_addr_lem b attempts role g g.addr s t res other held e

  -- By the laws of the system, whatever others do to the object while the loop sleeps: an `attach`
  -- that throws, wherever it does, leaves descriptors and mappings as they were, over all the segments
  -- that its loop has opened; one that returns leaves one mapping more, that of its handle, which does
  -- not own the object. Whether there is an object is changed by others only: what may become of it
  -- over the call (`Becomes`, reflexive and transitive) is what may over a pause.
  pub attach_lem :
      (b : Binary) (fuel : ℕ) (attempts : List Attempt) (role : Role) (timeout_ms : ℕ) (s : S)
      (res : Result Handle × S)
      → attach host b fuel attempts name role timeout_ms s ≡ some res
      → Joined s res
  unfolding attach
  attach_lem b fuel attempts role timeout_ms s res e =
      joined_lem b attempts role s _ res
        (λ q.
          attach_loop-Looped fuel (host.now s + timeout_ms) no_segment s s q refl
            (refl, refl, stays (r.present name s)))
        e
