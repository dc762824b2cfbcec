-- ===== src/Connect/Made.antt =====
-- What `create` of include/shmspsc/ShmSpscQueue.h leaves, and what the destructor takes away again.
use shm_spsc.Base.{
  ℕ, ◌≡◌, ◌⊎◌, refl, sym, ap, ◌∙◌, true, false, Option, none, some, List, [], ◌∷◌, ◌++◌, inl, inr,
}
use shm_spsc.Base.Results.{Result, ok, err}
use shm_spsc.Layout.{Role, Binary, ControlBlock, bytes_needed}
use shm_spsc.Ring.{Segment, Handle}
use shm_spsc.Segment.{Os, create, nonempty, validate_name}
use shm_spsc.Segment.Laws.{Resources, Keeps}
use shm_spsc.Segment.Cleanup.{Created, create_lem}
use shm_spsc.Claim.{Attempt}
use shm_spsc.Attach.{no_handle, clamp, slot_count, init_control, bind, detach, swap_with}
use shm_spsc.Connect.{
  Host, drop_segment, at_addr, published, written, sized, create_queue, leave, assign,
}
use shm_spsc.Connect.Held.{HostLaws, owned, drop_lem, drop_own_lem, drop_other_lem}
use shm_spsc.Attach.Binding.{bind-seg}

some-inj {ℓ} : {B : Type ℓ} {a b : B} → some a ≡ some b → a ≡ b
some-inj e = cc

create-named :
    {S : Type 0} (os : Os S) (name : List ℕ) (bytes : ℕ) (s : S) (g : Segment)
    → (create os name bytes s).0 ≡ ok g
    → nonempty os name ≡ true
unfolding create validate_name
create-named os [] bytes s g e = absurd (cc)
create-named os (c ∷ name) bytes s g e = refl

module _ {S : Type 0} (host : Host S) (r : Resources S) (name : List ℕ)
    (laws : HostLaws host r name) where
  -- Nothing is left of it, except that the object of the name may be gone.
  abbrev pub Undone : S → S → Type 0
  Undone s t = (r.fds t ≡ r.fds s) × (r.maps t ≡ r.maps s) × ((r.present name t ≡ false) ⊎ (t ≡ s))

  -- The object, and the one mapping, of a segment that owns it.
  abbrev pub Owns : S → Segment → S → Type 0
  Owns s g t =
      (r.fds t ≡ r.fds s)
      × (r.maps t ≡ owned g ++ r.maps s)
      × (r.present name t ≡ true)
      × (g.owner ≡ true)
      × (g.name ≡ name)
      × (nonempty host.os name ≡ true)

  abbrev pub Made : S → Result Handle × S → Type 0
  Made s (err e, t) = Undone s t
  Made s (ok h, t) = Owns s h.seg t

  Owns-Keeps : (g : Segment) {s t u : S} → Owns s g t → Keeps r name t u → Owns s g u
  Owns-Keeps g (f, m, p, o, n, e) (f', m', p') = (f' ∙ f, m' ∙ m, p' ∙ p, o, n, e)

  drop_owned : (g : Segment) (s t : S) → Owns s g t → Undone s (drop_segment host g t)
  drop_owned g s t (f, m, p, o, n, e) =
      let (f', m', p') = drop_own_lem host r name laws g s t o n e m in (f' ∙ f, m', inl p')

  published_lem :
      (g : Segment) (addr : ℕ) (s t : S) (o : Option (Result (Handle × ControlBlock)))
      (res : Result Handle × S)
      → Owns s g t
      → ((h : Handle) (c : ControlBlock) → o ≡ some (ok (h, c)) → h.seg ≡ g)
      → published host g addr t o ≡ some res
      → Made s res
  published_lem g addr s t none res held seg e = absurd (cc)
  published_lem g addr s t (some (err x)) res held seg e =
      rw (sym (some-inj e)) (drop_owned g s t held)
  published_lem g addr s t (some (ok (h, c))) res held seg e =
      rw (sym (some-inj e), seg h c refl)
        (Owns-Keeps g held (laws.stores addr (record c { ready = 1 }) t))

  module _ (b : Binary) (attempts : List Attempt) (capacity : ℕ) (role : Role) where
    at_addr_lem :
        (g : Segment) (a : Option ℕ) (s t : S) (res : Result Handle × S)
        → Owns s g t
        → at_addr a
            (λ addr.
              let c = init_control b (slot_count capacity) g.size in
              let u = host.store addr c t in
              published host g addr u (
                bind
                  (host.kill u)
                  host.self
                  attempts
                  role
                  (record no_handle { seg = g; ctrl = some addr })
                  c
                  c))
            none
          ≡ some res
        → Made s res
    at_addr_lem g none s t res held e = absurd (cc)
    at_addr_lem g (some addr) s t res held e =
        let c = init_control b (slot_count capacity) g.size in
        let u = host.store addr c t in
        let h = record no_handle { seg = g; ctrl = some addr } in
        published_lem g addr s u _ res (Owns-Keeps g held (laws.stores addr c t))
          (λ h' c' q. bind-seg (host.kill u) host.self attempts role h h' c c c' q) e

    written_lem :
        (bytes : ℕ) (s : S) (o : Result Segment × S) (res : Result Handle × S)
        → Created r name bytes s o
        → ((g : Segment) → o.0 ≡ ok g → nonempty host.os name ≡ true)
        → written host b attempts capacity role o ≡ some res
        → Made s res
    written_lem bytes s (err x, t) res made named e = rw (sym (some-inj e)) made
    written_lem bytes s (ok g, t) res (f, p, addr, eq, m) named e =
        at_addr_lem g g.addr s t res
          (
            f,
            m ∙ ap (λ (k : Segment). owned k ++ r.maps s) (sym eq),
            p,
            ap (λ (k : Segment). k.owner) eq,
            ap (λ (k : Segment). k.name) eq,
            named g refl,
          )
          e

    sized_lem :
        (s : S) (o : Result ℕ) (res : Result Handle × S)
        → sized host b attempts name capacity role s o ≡ some res
        → Made s res
    sized_lem s (err x) res e = rw (sym (some-inj e)) (refl, refl, inr refl)
    sized_lem s (ok bytes) res e =
        written_lem bytes s (create host.os name bytes s) res
          (create_lem host.os r name laws.os_laws bytes s) (create-named host.os name bytes s) e

    -- By the laws of the system, a `create` that throws leaves descriptors and mappings as they were,
    -- and no object of the name unless it has changed nothing; one that returns leaves the object
    -- and one mapping, that of its handle, which owns it.
    pub create_queue_lem :
        (s : S) (res : Result Handle × S)
        → create_queue host b attempts name capacity role s ≡ some res
        → Made s res
    unfolding create_queue
    create_queue_lem s res e = sized_lem s (bytes_needed b (clamp capacity)) res e

  stored_lem :
      (a : Option ℕ) (c : ℕ → ControlBlock) (t : S)
      → Keeps r name t (at_addr a (λ addr. host.store addr (c addr) t) t)
  stored_lem none c t = (refl, refl, refl)
  stored_lem (some addr) c t = laws.stores addr (c addr) t

  -- The destructor gives back what `create` or `attach` has left.
  pub leave-owned : (h : Handle) (s t : S) → Owns s h.seg t → Undone s (leave host h t)
  unfolding leave
  leave-owned h s t held = drop_owned h.seg s _ (
      Owns-Keeps h.seg held
        (stored_lem h.ctrl (λ addr. (detach host.self h (host.view addr t)).1) t))

  pub leave_own_lem :
      (h : Handle) (s t : S)
      → h.seg.owner ≡ true
      → h.seg.name ≡ name
      → nonempty host.os name ≡ true
      → r.maps t ≡ owned h.seg ++ r.maps s
      → (r.fds (leave host h t) ≡ r.fds t)
        × (r.maps (leave host h t) ≡ r.maps s)
        × (r.present name (leave host h t) ≡ false)
  unfolding leave
  leave_own_lem h s t own same named m =
      let (f, k, p) = stored_lem h.ctrl (λ addr. (detach host.self h (host.view addr t)).1) t in
      let (f', m', p') = drop_own_lem host r name laws h.seg s _ own same named (k ∙ m) in
      (f' ∙ f, m', p')

  -- A handle of another name leaves the object of this one alone.
  pub leave_other_lem :
      (h : Handle) (s t : S)
      → h.seg.owner ≡ true
      → r.maps t ≡ owned h.seg ++ r.maps s
      → ((u : S) → r.present name (host.os.shm_unlink h.seg.name u) ≡ r.present name u)
      → nonempty host.os h.seg.name ≡ true
      → r.present name (leave host h t) ≡ r.present name t
  unfolding leave
  leave_other_lem h s t own m apart named =
      let (f, k, p) = stored_lem h.ctrl (λ addr. (detach host.self h (host.view addr t)).1) t in
      drop_other_lem host r name laws h.seg s _ own (k ∙ m) apart named ∙ p

  pub leave-held :
      (h : Handle) (s t : S)
      → h.seg.owner ≡ false
      → r.maps t ≡ owned h.seg ++ r.maps s
      → (r.fds (leave host h t) ≡ r.fds t)
        × (r.maps (leave host h t) ≡ r.maps s)
        × (r.present name (leave host h t) ≡ r.present name t)
  unfolding leave
  leave-held h s t other m =
      let (f, k, p) = stored_lem h.ctrl (λ addr. (detach host.self h (host.view addr t)).1) t in
      let (f', k', p') = drop_lem host r name laws h.seg s _ other (k ∙ m) in (f' ∙ f, k', p' ∙ p)

  -- The move assignment gives back what the handle had, hands over what the source had, and leaves
  -- the source with no segment.
  pub assign_lem :
      (h o : Handle) (s t : S)
      → Owns s h.seg t
      → let (h', o', u) = assign host false h o t in
        (h' ≡ o) × (owned o'.seg ≡ []) × (o'.bound ≡ false) × Undone s u
  unfolding assign swap_with
  assign_lem h o s t held = (refl, refl, refl, leave-owned h s t held)
