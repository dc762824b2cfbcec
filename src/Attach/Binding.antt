-- ===== src/Attach/Binding.antt =====
-- What `bind` of include/shmspsc/ShmSpscQueue.h makes of a handle, and `detach` of the slot.
use shm_spsc.Base.{
  ℕ, ◌<◌, ◌≤◌, ◌^◌, ◌≡◌, inl, inr, refl, sym, ap, Bool, true, false, ◌||◌, none, some, arith,
  Bool-cases, le→leb, gt→leb, List, [], ◌∷◌, ◌++◌, Option, length,
}
use shm_spsc.Base.Int.{ℤ, negsuc, is_positive}
use shm_spsc.Base.Results.{ok}
use shm_spsc.Layout.{Role, ControlBlock, Binary}
use shm_spsc.Ring.{Handle, Shared}
use shm_spsc.Ring.Invariant.{IsRing, IsWriter, IsReader}
use shm_spsc.Claim.{Kill, Attempt, Claimed, claim, own_pid, set_own_pid, give_back, exchange}
use shm_spsc.Claim.Run.{eq_int_self}
use shm_spsc.Attach.{
  bind, bind_result, load_members, detach, has, init_control, swap_with, move_from, wait_for_peer,
}

pub pair-inj : {a b : Handle × ControlBlock} → some (ok a) ≡ some (ok b) → a ≡ b
pair-inj e = cc

bind_result-seg :
    (role : Role) (self : ℤ) (h h' : Handle) (c c' : ControlBlock) (o : Option Claimed)
    → bind_result role self h c o ≡ some (ok (h', c'))
    → h'.seg ≡ h.seg
bind_result-seg role self h h' c c' none e = absurd (cc)
bind_result-seg role self h h' c c' (some Claimed.kept) e =
    sym (ap (λ (q : Handle × ControlBlock). q.0.seg) (pair-inj e))
bind_result-seg role self h h' c c' (some Claimed.stored) e =
    sym (ap (λ (q : Handle × ControlBlock). q.0.seg) (pair-inj e))
bind_result-seg role self h h' c c' (some (Claimed.refused pid)) e = absurd (cc)

-- `bind` leaves the segment of its handle alone.
pub bind-seg :
    (kill : Kill) (self : ℤ) (attempts : List Attempt) (role : Role) (h h' : Handle)
    (c later c' : ControlBlock)
    → bind kill self attempts role h c later ≡ some (ok (h', c'))
    → h'.seg ≡ h.seg
unfolding bind load_members
bind-seg kill self attempts role h h' c later c' e =
    bind_result-seg role self (load_members role h c) h' later c'
      (claim kill self attempts (own_pid role c)) e

-- The slots behind a control block that `create` has written hold an empty ring.
pub init-IsRing {ℓ} :
    {A : Type ℓ} (b : Binary) (n bytes : ℕ) (slots : List A)
    → 2 ≤ n
    → n ≤ 2 ^ 63
    → n ≤ length slots
    → IsRing (record { ctrl = init_control b n bytes; slots = slots })
unfolding init_control
init-IsRing b n bytes slots room small whole = record {
  room = room;
  small = small;
  whole = whole;
  write_in = omega arith;
  read_in = omega arith;
}

-- Both index caches of a handle are true to the ring, and it is bound in its role.
pub record IsBound (role : Role) (h : Handle) (c : ControlBlock) : Type 0 where
  pub writer : IsWriter h c
  pub reader : IsReader h c
  pub plays : h.role ≡ role
  pub bound : h.bound ≡ true

module _ {ℓ} {A : Type ℓ} (s : Shared A) (v : IsRing s) where
  fresh_member : (role : Role) (h : Handle) → Handle
  fresh_member role h = record (load_members role h s.ctrl) { bound = true }

  loaded-IsBound : (role : Role) (h : Handle) → IsBound role (fresh_member role h) s.ctrl
  unfolding load_members fresh_member
  loaded-IsBound role h = record {
    writer = record { same = refl; cache_in = v.read_in; stale = omega arith };
    reader = record { same = refl; cache_in = v.write_in; stale = omega arith };
    plays = refl;
    bound = refl;
  }

  -- A pid slot is no part of the ring.
  claimed-IsBound :
      (role : Role) (self : ℤ) (h : Handle)
      → IsBound role (fresh_member role h) (set_own_pid role self s.ctrl)
  unfolding load_members fresh_member
  claimed-IsBound Role.producer self h = record {
    writer = record { same = refl; cache_in = v.read_in; stale = omega arith };
    reader = record { same = refl; cache_in = v.write_in; stale = omega arith };
    plays = refl;
    bound = refl;
  }
  claimed-IsBound Role.consumer self h = record {
    writer = record { same = refl; cache_in = v.read_in; stale = omega arith };
    reader = record { same = refl; cache_in = v.write_in; stale = omega arith };
    plays = refl;
    bound = refl;
  }

  outcome-IsBound :
      (role : Role) (self : ℤ) (h h' : Handle) (c : ControlBlock) (o : Option Claimed)
      → bind_result role self (load_members role h s.ctrl) s.ctrl o ≡ some (ok (h', c))
      → IsBound role h' c
  unfolding fresh_member
  outcome-IsBound role self h h' c none e = absurd (cc)
  outcome-IsBound role self h h' c (some Claimed.kept) e =
      let p = pair-inj e in
      rw (sym (ap (λ q. q.0) p), sym (ap (λ q. q.1) p)) (loaded-IsBound role h)
  outcome-IsBound role self h h' c (some Claimed.stored) e =
      let p = pair-inj e in
      rw (sym (ap (λ q. q.0) p), sym (ap (λ q. q.1) p)) (claimed-IsBound role self h)
  outcome-IsBound role self h h' c (some (Claimed.refused pid)) e = absurd (cc)

  -- If `bind` returns on a sound ring, and no element has been pushed or popped since it began, then
  -- its handle may push and pop: it is bound, and both index caches are true to the ring.
  pub bind_lem :
      (kill : Kill) (self : ℤ) (attempts : List Attempt) (role : Role) (h h' : Handle)
      (c : ControlBlock)
      → bind kill self attempts role h s.ctrl s.ctrl ≡ some (ok (h', c))
      → IsBound role h' c
  unfolding bind
  bind_lem kill self attempts role h h' c e =
      outcome-IsBound role self h h' c (claim kill self attempts (own_pid role s.ctrl)) e

give_back_self : (self : ℤ) → give_back self self ≡ negsuc 0
unfolding give_back exchange
give_back_self self = rw (give_back, exchange, eq_int_self self) refl

-- `detach` of a bound handle whose process holds the slot of its role leaves -1 there, which the
-- next `bind` may take, and a handle with no queue; the ring stays as it is.
pub detach_lem :
    (self : ℤ) (h : Handle) (c : ControlBlock) (addr : ℕ)
    → h.ctrl ≡ some addr
    → h.bound ≡ true
    → own_pid h.role c ≡ self
    → ((detach self h c).1 ≡ set_own_pid h.role (negsuc 0) c)
      × ((detach self h c).0.ctrl ≡ none)
      × ((detach self h c).0.bound ≡ false)
unfolding detach
detach_lem self h c addr e bound own = rw (e, bound, own, give_back_self self) (refl, refl, refl)

-- A handle that is not bound, as after a refused `bind`, changes nothing by `detach`.
pub detach-unbound :
    (self : ℤ) (h : Handle) (c : ControlBlock) → h.bound ≡ false → (detach self h c).1 ≡ c
unfolding detach
detach-unbound self h c e = elim (Bool-cases (has h.ctrl)) [
  | inl there ↦ rw (there, e) refl
  | inr gone ↦ rw gone refl
]

-- After a move, the source is a handle with no queue, and its `detach` leaves the block as it is;
-- the new handle is the source.
pub move-detach :
    (self : ℤ) (o : Handle) (c : ControlBlock)
    → ((move_from o).0 ≡ o) × ((detach self (move_from o).1 c).1 ≡ c)
unfolding move_from swap_with detach
move-detach self o c = (refl, refl)

-- Every reading of the clock is before the deadline.
abbrev pub AllBefore : ℕ → List (ℤ × ℕ) → Type 0
AllBefore deadline [] = Unit
AllBefore deadline (o ∷ rest) = (o.1 < deadline) × AllBefore deadline rest

abbrev pub seen_peer : List (ℤ × ℕ) → Bool
seen_peer [] = false
seen_peer (o ∷ rest) = is_positive o.0 || seen_peer rest

-- `waitForPeer` ends no later than at its first reading of the clock past the deadline. By then it
-- returns true exactly when a reading of the slot, that one included, was the pid of a process.
pub wait_for_peer_lem :
    (deadline : ℕ) (before : List (ℤ × ℕ)) (last : ℤ × ℕ)
    → AllBefore deadline before
    → deadline ≤ last.1
    → wait_for_peer deadline (before ++ last ∷ []) ≡ some (seen_peer (before ++ last ∷ []))
unfolding wait_for_peer
wait_for_peer_lem deadline [] (p, now) early h = elim (Bool-cases (is_positive p)) [
  | inl up ↦ rw up refl
  | inr down ↦ rw (down, le→leb deadline now h) refl
]
wait_for_peer_lem deadline ((p, t) ∷ before) last (lt, early) h =
    elim (Bool-cases (is_positive p)) [
      | inl up ↦ rw up refl
      | inr down ↦ rw (down, gt→leb deadline t lt) (wait_for_peer_lem deadline before last early h)
    ]
