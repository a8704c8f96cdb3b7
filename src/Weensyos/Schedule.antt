-- ===== src/Weensyos/Schedule.antt =====
-- schedule of weensyos/kernel.cc. The states of the processes do not change while it spins, since
-- interrupts are off.
use cs300_s23_projects_days.Prelude.{
  ℕ, zero, suc, ◌+◌, ◌-◌, ◌%◌, ◌≤◌, ◌<◌, ◌≡◌, inl, inr, sym, subst, Bool, true, false, Option, none,
  some, ltb, if◌then◌else◌, arith, Bool-cases,
}

pub data ProcState : Type 0 where
  free : ProcState
  runnable : ProcState
  blocked : ProcState
  broken : ProcState

abbrev pub is_runnable : ProcState → Bool
is_runnable runnable = true
is_runnable free = false
is_runnable blocked = false
is_runnable broken = false

-- The process that is run, if the loop finds one in so many spins.
unfoldable pub schedule : ℕ → (ℕ → ProcState) → ℕ → Option ℕ
schedule zero states pid = none
schedule (suc spins) states pid =
    let pid' = (pid + 1) % 16 in
    let rest = schedule spins states pid' in if is_runnable (states pid') then some pid' else rest

-- The process d places behind pid is the first that can run.
pub record IsFirst (states : ℕ → ProcState) (pid d : ℕ) : Type 0 where
  pub runs : is_runnable (states ((pid + 1 + d) % 16)) ≡ true
  pub waits : (e : ℕ) → e < d → is_runnable (states ((pid + 1 + e) % 16)) ≡ false

pub data Chosen (states : ℕ → ProcState) (pid spins : ℕ) : Option ℕ → Type 0 where
  chosen :
      (d : ℕ)
      → d < spins
      → IsFirst states pid d
      → Chosen states pid spins (some ((pid + 1 + d) % 16))
  spinning :
      ((e : ℕ) → e < spins → is_runnable (states ((pid + 1 + e) % 16)) ≡ false)
      → Chosen states pid spins none

-- The place e behind the next process is the place e + 1 behind this one.
one_on : (pid e : ℕ) → ((pid + 1) % 16 + 1 + e) % 16 ≡ (pid + 1 + suc e) % 16
one_on pid e = omega arith

shift :
    (states : ℕ → ProcState) (pid d : ℕ)
    → is_runnable (states ((pid + 1) % 16)) ≡ false
    → ((e : ℕ) → e < d → is_runnable (states (((pid + 1) % 16 + 1 + e) % 16)) ≡ false)
    → (e : ℕ) → e < suc d
    → is_runnable (states ((pid + 1 + e) % 16)) ≡ false
shift states pid d here later zero l = let z : pid + 1 + zero ≡ pid + 1 = omega arith in rw (z) here
shift states pid d here later (suc e) l =
    subst (λ x. is_runnable (states x) ≡ false) (one_on pid e) (later e (omega arith))

further :
    (states : ℕ → ProcState) (pid spins : ℕ) (r : Option ℕ)
    → is_runnable (states ((pid + 1) % 16)) ≡ false
    → Chosen states ((pid + 1) % 16) spins r
    → Chosen states pid (suc spins) r
further states pid spins _ here (chosen d l f) =
    subst (λ x. Chosen states pid (suc spins) (some x)) (sym (one_on pid d))
      (chosen (suc d) (omega arith) (record {
        runs = subst (λ x. is_runnable (states x) ≡ true) (one_on pid d) f.runs;
        waits = shift states pid d here f.waits;
      }))
further states pid spins _ here (spinning w) = spinning (shift states pid spins here w)

schedule-Chosen :
    (spins : ℕ) (states : ℕ → ProcState) (pid : ℕ)
    → Chosen states pid spins (schedule spins states pid)
unfolding schedule
schedule-Chosen zero states pid = spinning (λ e l. absurd (omega arith))
schedule-Chosen (suc spins) states pid = elim (Bool-cases (is_runnable (states ((pid + 1) % 16)))) [
  | inl d ↦
      let z : pid + 1 + 0 ≡ pid + 1 = omega arith in
      rw (d, sym z)
        (chosen 0 (omega arith) (record { runs = rw (z) d; waits = λ e l. absurd (omega arith) }))
  | inr d ↦ rw (d) (further states pid spins _ d (schedule-Chosen spins states ((pid + 1) % 16)))
]

-- What schedule does for ever, once it has gone round.
pub data Scheduled (states : ℕ → ProcState) (pid : ℕ) : Option ℕ → Type 0 where
  next : (d : ℕ) → d < 16 → IsFirst states pid d → Scheduled states pid (some ((pid + 1 + d) % 16))
  idle : ((p : ℕ) → p < 16 → is_runnable (states p) ≡ false) → Scheduled states pid none

round_trip :
    (states : ℕ → ProcState) (pid spins : ℕ) (r : Option ℕ)
    → 16 ≤ spins
    → pid < 16
    → Chosen states pid spins r
    → Scheduled states pid r
round_trip states pid spins _ enough small (chosen d l f) = elim (Bool-cases (ltb d 16)) [
  | inl c ↦ next d (ground arith) f
  | inr c ↦
      let far : 16 ≤ d = ground arith in
      let e : (pid + 1 + (d - 16)) % 16 ≡ (pid + 1 + d) % 16 = omega arith in
      let no = subst (λ x. is_runnable (states x) ≡ false) e (f.waits (d - 16) (omega arith)) in
      let yes = f.runs in absurd (cc)
]
round_trip states pid spins _ enough small (spinning w) = idle (λ p l.
    let e : (pid + 1 + (p + 15 - pid) % 16) % 16 ≡ p = omega arith in
    subst (λ x. is_runnable (states x) ≡ false) e (w ((p + 15 - pid) % 16) (omega arith)))

-- From a process of the table, schedule has decided after at most 16 spins: it runs the first
-- runnable process behind the current one, in a round that ends with the current one, and goes on
-- for ever only if no process of the table is runnable.
pub schedule-Scheduled :
    (spins : ℕ) (states : ℕ → ProcState) (pid : ℕ)
    → 16 ≤ spins
    → pid < 16
    → Scheduled states pid (schedule spins states pid)
schedule-Scheduled spins states pid enough small =
    round_trip states pid spins _ enough small (schedule-Chosen spins states pid)
