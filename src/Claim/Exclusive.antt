-- ===== src/Claim/Exclusive.antt =====
-- The ownership of a pid slot of include/shmspsc/ShmSpscQueue.h.
use shm_spsc.Base.{
  ℕ, ◌<◌, ◌≡◌, ◌≢◌, refl, sym, ap, ◌∙◌, Bool, true, false, inl, inr, Bool-cases, ◌==◌, ==_iff,
  ==-ne, eq→==, ne→==, arith, ◌&&◌, not,
}
use shm_spsc.Base.Int.{ℤ, pos, negsuc, eq_int, eq_int_iff, is_positive}
use shm_spsc.Claim.{judge, exchange, give_back, process_alive}
use shm_spsc.Claim.Contest.{
  ClaimPc, Contest, put, kill_of, after_judge, after_exchange, ClaimStep, ClaimReach, here, next,
  start,
}

-- What holds of handle `i` while its process lives.
abbrev pub HandleOk : (pid : ℕ → ℕ) → ℤ → (ℕ → Bool) → ℕ → ClaimPc → Type 0
HandleOk pid slot alive i ClaimPc.outside = Unit
HandleOk pid slot alive i (ClaimPc.judging e) = e ≡ pos (pid i) → slot ≡ e
HandleOk pid slot alive i (ClaimPc.trying e) = (j : ℕ) → e ≡ pos (pid j) → alive (pid j) ≡ false
HandleOk pid slot alive i ClaimPc.bound = slot ≡ pos (pid i)
HandleOk pid slot alive i ClaimPc.thrown = Unit

abbrev pub ClaimInv : (pid : ℕ → ℕ) → Contest → Type 0
ClaimInv pid s = (k : ℕ) → s.alive (pid k) ≡ true → HandleOk pid s.slot s.alive k (s.pc k)

pos-inj : {m n : ℕ} → pos m ≡ pos n → m ≡ n
pos-inj h = cc

not_positive : (n : ℕ) → is_positive (pos n) ≡ false → 0 < n → ⊥
not_positive n h lt = ground arith

and_left : (a b : Bool) → (a && b) ≡ true → a ≡ true
and_left true b h = refl
and_left false b h = h

not_both : {b : Bool} → b ≡ true → b ≡ false → ⊥
not_both p q = cc

pub was_alive : (alive : ℕ → Bool) (n m : ℕ) → put alive n false m ≡ true → alive m ≡ true
was_alive alive n m h = elim (Bool-cases (m == n)) [
  | inl e ↦ absurd (not_both h (rw e refl))
  | inr e ↦ rw e at h
]

put_case {ℓ κ} :
    {B : Type ℓ} (P : ℕ → B → Type κ) (f : ℕ → B) (i : ℕ) (b : B) (k : ℕ)
    → P i b
    → (k ≢ i → P k (f k))
    → P k (put f i b k)
put_case P f i b k own other = elim (Bool-cases (k == i)) [
  | inl h ↦ let e = (==_iff k i).0 h in rw h (rw e own)
  | inr h ↦ rw h (other (==-ne k i h))
]

module _ (pid : ℕ → ℕ) (alone : (i j : ℕ) → pid i ≡ pid j → i ≡ j)
    (positive : (i : ℕ) → 0 < pid i) where
  -- Only the owner minds that the slot changes.
  moved :
      (a b : ℤ) (alive : ℕ → Bool) (k : ℕ) (pc : ClaimPc)
      → a ≢ pos (pid k)
      → HandleOk pid a alive k pc
      → HandleOk pid b alive k pc
  moved a b alive k ClaimPc.outside d ok = tt
  moved a b alive k (ClaimPc.judging e) d ok = λ h. absurd (d (ok h ∙ h))
  moved a b alive k (ClaimPc.trying e) d ok = ok
  moved a b alive k ClaimPc.bound d ok = absurd (d ok)
  moved a b alive k ClaimPc.thrown d ok = tt

  judged :
      (slot e : ℤ) (alive : ℕ → Bool) (i : ℕ)
      → (e ≡ pos (pid i) → slot ≡ e)
      → HandleOk pid slot alive i (after_judge e (judge (kill_of alive) (pos (pid i)) e))
  unfolding judge process_alive
  judged slot (negsuc n) alive i ok = λ j h. cc
  judged slot (pos n) alive i ok = elim (Bool-cases (eq_int (pos n) (pos (pid i)))) [
    | inl self ↦ let e = (eq_int_iff (pos n) (pos (pid i))).0 self in rw self (ok e ∙ e)
    | inr other ↦ elim (Bool-cases (is_positive (pos n))) [
      | inr none_there ↦
          rw (other, none_there)
            (λ j h. absurd (not_positive n none_there (rw (pos-inj h) (positive j))))
      | inl someone ↦ elim (Bool-cases (alive n)) [
        | inl up ↦ rw (other, someone, up) tt
        | inr down ↦ rw (other, someone, down) (λ j h. rw (sym (pos-inj h)) down)
      ]
    ]
  ]

  tried :
      (slot e : ℤ) (weak : Bool) (alive : ℕ → Bool) (i : ℕ)
      → HandleOk pid
          (exchange weak slot e (pos (pid i))).1
          alive
          i
          (after_exchange (exchange weak slot e (pos (pid i))))
  unfolding exchange
  tried slot e weak alive i = elim (Bool-cases (eq_int slot e && not weak)) [
    | inl hit ↦ rw hit refl
    | inr miss ↦ rw miss (λ h. refl)
  ]

  -- A successful exchange replaces what no live process owns.
  past_exchange :
      (slot e : ℤ) (weak : Bool) (alive : ℕ → Bool) (i k : ℕ) (pc : ClaimPc)
      → alive (pid k) ≡ true
      → HandleOk pid slot alive i (ClaimPc.trying e)
      → HandleOk pid slot alive k pc
      → HandleOk pid (exchange weak slot e (pos (pid i))).1 alive k pc
  unfolding exchange
  past_exchange slot e weak alive i k pc up gone ok =
      elim (Bool-cases (eq_int slot e && not weak)) [
        | inl hit ↦
            let same = (eq_int_iff slot e).0 (and_left _ _ hit) in
            rw hit (moved slot _ alive k pc (λ h. not_both up (gone k (sym same ∙ h))) ok)
        | inr miss ↦ rw miss ok
      ]

  died :
      (slot : ℤ) (alive : ℕ → Bool) (n k : ℕ) (pc : ClaimPc)
      → HandleOk pid slot alive k pc
      → HandleOk pid slot (put alive n false) k pc
  died slot alive n k ClaimPc.outside ok = tt
  died slot alive n k (ClaimPc.judging e) ok = ok
  died slot alive n k (ClaimPc.trying e) ok = λ j h.
      put_case (λ m b. (m ≡ pid j → b ≡ false)) alive n false (pid j) (λ h'. refl) (λ d h'. ok j h)
        refl
  died slot alive n k ClaimPc.bound ok = ok
  died slot alive n k ClaimPc.thrown ok = tt

  Step-ClaimInv : {s t : Contest} → ClaimStep pid s t → ClaimInv pid s → ClaimInv pid t
  Step-ClaimInv {s} (ClaimStep.load i up e) v = λ k.
      put_case (λ m c. (s.alive (pid m) ≡ true → HandleOk pid s.slot s.alive m c)) s.pc i _ k
        (λ a h. refl) (λ d. v k)
  Step-ClaimInv {s} (ClaimStep.verdict i up e) v = λ k.
      put_case (λ m c. (s.alive (pid m) ≡ true → HandleOk pid s.slot s.alive m c)) s.pc i _ k
        (λ a. judged s.slot _ s.alive i (rw e at (v i a))) (λ d. v k)
  Step-ClaimInv {s} (ClaimStep.attempt i weak {e = x} up e) v = λ k.
      let here : HandleOk pid s.slot s.alive i (ClaimPc.trying x) = rw e at (v i up) in
      put_case
        (λ m c.
          (s.alive (pid m) ≡ true
            → HandleOk pid (exchange weak s.slot x (pos (pid i))).1 s.alive m c))
        s.pc i _ k (λ a. tried s.slot x weak s.alive i)
        (λ d a. past_exchange s.slot x weak s.alive i k (s.pc k) a here (v k a))
  Step-ClaimInv {s} (ClaimStep.detach i up e) v = λ k.
      let here : s.slot ≡ pos (pid i) = rw e at (v i up) in
      put_case
        (λ m c.
          (s.alive (pid m) ≡ true → HandleOk pid (give_back (pos (pid i)) s.slot) s.alive m c))
        s.pc i _ k (λ a. tt)
        (λ d a.
          moved s.slot _ s.alive k (s.pc k) (λ h. d (alone k i (pos-inj (sym h ∙ here)))) (v k a))
  Step-ClaimInv {s} (ClaimStep.again i e) v = λ k.
      put_case (λ m c. (s.alive (pid m) ≡ true → HandleOk pid s.slot s.alive m c)) s.pc i _ k
        (λ a. tt) (λ d. v k)
  Step-ClaimInv {s} (ClaimStep.die n) v =
      λ k up. died s.slot s.alive n k (s.pc k) (v k (was_alive s.alive n (pid k) up))

  Reach-ClaimInv :
      {slot : ℤ} {alive : ℕ → Bool} {s : Contest}
      → ClaimReach pid (start slot alive) s
      → ClaimInv pid s
  Reach-ClaimInv here = λ k up. tt
  Reach-ClaimInv (next reach m) = Step-ClaimInv m (Reach-ClaimInv reach)

  -- With handles of distinct processes, from any value of the slot and after any steps, at most one
  -- handle whose process is alive is bound.
  pub exclusive :
      (slot : ℤ) (alive : ℕ → Bool) (s : Contest)
      → ClaimReach pid (start slot alive) s
      → (i j : ℕ) → s.alive (pid i) ≡ true
      → s.alive (pid j) ≡ true
      → s.pc i ≡ ClaimPc.bound
      → s.pc j ≡ ClaimPc.bound
      → i ≡ j
  exclusive slot alive s reach i j up up' e e' =
      let v = Reach-ClaimInv reach in
      let at_i : s.slot ≡ pos (pid i) = rw e at (v i up) in
      let at_j : s.slot ≡ pos (pid j) = rw e' at (v j up') in alone i j (pos-inj (sym at_i ∙ at_j))

-- A handle of a process that owns the slot already, through another handle of the same role, is
-- bound as well: both are then bound and alive.
pub second_handle :
    (pid : ℕ → ℕ) (s : Contest) (i j : ℕ)
    → i ≢ j
    → pid i ≡ pid j
    → s.alive (pid i) ≡ true
    → s.slot ≡ pos (pid i)
    → s.pc i ≡ ClaimPc.bound
    → s.pc j ≡ ClaimPc.outside
    → (t : Contest) × ClaimReach pid s t × (t.pc i ≡ ClaimPc.bound) × (t.pc j ≡ ClaimPc.bound)
unfolding judge
second_handle pid s i j d same up owner e e' =
    let up' : s.alive (pid j) ≡ true = rw (sym same) up in
    let loaded = next here (ClaimStep.load j up' e') in
    let self : eq_int s.slot (pos (pid j)) ≡ true =
      (eq_int_iff s.slot (pos (pid j))).1 (owner ∙ ap pos same) in
    let me = eq→== j j refl in
    let not_me = ne→== i j d in
    (
      _,
      next loaded (ClaimStep.verdict j {e = s.slot} up' (rw me refl)),
      rw not_me e,
      rw (me, self) refl,
    )
