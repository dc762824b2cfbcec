-- ===== src/Claim/Contest.antt =====
-- Processes that contend for one pid slot, each running `bind` of include/shmspsc/ShmSpscQueue.h,
-- later `detach`, or dying at any point. One access to the slot a step.
use shm_spsc.Base.{ℕ, ◌≡◌, Bool, true, false, none, some, ◌==◌, if◌then◌else◌}
use shm_spsc.Base.Int.{ℤ, pos, negsuc}
use shm_spsc.Claim.{Kill, Verdict, judge, exchange, give_back, esrch}

-- Where a handle stands: not in `bind`, about to judge or to exchange `expected`, bound, or thrown.
pub data ClaimPc : Type 0 where
  outside : ClaimPc
  judging : ℤ → ClaimPc
  trying : ℤ → ClaimPc
  bound : ClaimPc
  thrown : ClaimPc

-- Handles are numbered, and `pid i` is the process of handle `i`.
pub record Contest : Type 0 where
  pub slot : ℤ
  pub pc : ℕ → ClaimPc
  pub alive : ℕ → Bool

abbrev pub put {ℓ} : {B : Type ℓ} → (ℕ → B) → ℕ → B → ℕ → B
put f i b j = if j == i then b else f j

-- What `kill(pid, 0)` answers when it may signal every process there is.
abbrev pub kill_of : (ℕ → Bool) → Kill
kill_of alive (pos n) = if alive n then none else some esrch
kill_of alive (negsuc n) = some esrch

abbrev pub after_judge : ℤ → Verdict → ClaimPc
after_judge expected Verdict.mine = ClaimPc.bound
after_judge expected Verdict.conflict = ClaimPc.thrown
after_judge expected Verdict.vacant = ClaimPc.trying expected

abbrev pub after_exchange : Bool × ℤ × ℤ → ClaimPc
after_exchange (true, slot, expected) = ClaimPc.bound
after_exchange (false, slot, expected) = ClaimPc.judging expected

pub data ClaimStep (pid : ℕ → ℕ) (s : Contest) : Contest → Type 0 where
  load :
      (i : ℕ)
      → s.alive (pid i) ≡ true
      → s.pc i ≡ ClaimPc.outside
      → ClaimStep pid s (record s { pc = put s.pc i (ClaimPc.judging s.slot) })
  verdict :
      (i : ℕ) {e : ℤ}
      → s.alive (pid i) ≡ true
      → s.pc i ≡ ClaimPc.judging e
      → ClaimStep pid s
          (record s { pc = put s.pc i (after_judge e (judge (kill_of s.alive) (pos (pid i)) e)) })
  attempt :
      (i : ℕ) (weak : Bool) {e : ℤ}
      → s.alive (pid i) ≡ true
      → s.pc i ≡ ClaimPc.trying e
      → ClaimStep pid s (record s {
        slot = (exchange weak s.slot e (pos (pid i))).1;
        pc = put s.pc i (after_exchange (exchange weak s.slot e (pos (pid i))));
      })
  detach :
      (i : ℕ)
      → s.alive (pid i) ≡ true
      → s.pc i ≡ ClaimPc.bound
      → ClaimStep pid s
          (record s { slot = give_back (pos (pid i)) s.slot; pc = put s.pc i ClaimPc.outside })
  again :
      (i : ℕ)
      → s.pc i ≡ ClaimPc.thrown
      → ClaimStep pid s (record s { pc = put s.pc i ClaimPc.outside })
  -- A crash. A pid is not used again.
  die : (n : ℕ) → ClaimStep pid s (record s { alive = put s.alive n false })

pub data ClaimReach (pid : ℕ → ℕ) (s : Contest) : Contest → Type 0 where
  here : ClaimReach pid s s
  next : {t u : Contest} → ClaimReach pid s t → ClaimStep pid t u → ClaimReach pid s u

-- No handle is bound yet; the slot holds whatever earlier processes left there.
abbrev pub start : ℤ → (ℕ → Bool) → Contest
start slot alive = record { slot = slot; pc = λ i. ClaimPc.outside; alive = alive }
