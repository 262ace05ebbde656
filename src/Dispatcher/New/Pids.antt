-- ===== src/Dispatcher/New/Pids.antt =====
-- The process ID of a new process: src/dispatcher/new.c.
use hypnoticos.Base.{
  ℕ, zero, suc, ◌+◌, ◌≤◌, ◌<◌, ◌≡◌, ◌⊎◌, inl, inr, ap, ◌∙◌, subst, none, some, Option-cases, List,
  arith, ℕ_discrete, dec_lt,
}
use hypnoticos.Dispatcher.Process.{Process, dispatcher_find}
use hypnoticos.Dispatcher.New.{step_pid, next_pid}

-- The IDs of processes.
abbrev pub IsPid : ℕ → Type 0
IsPid pid = (1 ≤ pid) × (pid ≤ 0xFFFF)

step_pid-IsPid : (last_pid : ℕ) → last_pid ≤ 0xFFFF → IsPid (step_pid last_pid)
unfolding step_pid
step_pid-IsPid last_pid l = ground (arith, l)

-- The number of steps from one ID to another, going round.
abbrev Within : (last_pid pid n : ℕ) → Type 0
Within last_pid pid n =
    ((last_pid < pid) × (pid ≤ last_pid + n)) ⊎ ((pid ≤ last_pid) × (0xFFFF + pid ≤ last_pid + n))

-- `next` is the ID, or the ID is `n` steps behind it at most.
step_to :
    (last_pid pid n next : ℕ)
    → step_pid last_pid ≡ next
    → IsPid pid
    → ((next ≤ pid) × (pid ≤ next + n)) ⊎ ((pid ≤ next) × (0xFFFF + pid ≤ next + n))
    → (step_pid last_pid ≡ pid) ⊎ Within (step_pid last_pid) pid n
step_to last_pid pid n next s p w = elim w [
  | inr b ↦ inr (inr (omega (arith, b, s), omega (arith, b, s)))
  | inl a ↦ elim (ℕ_discrete next pid) [
    | yes e ↦ inl (s ∙ e)
    | no e ↦ inr (inl (omega (arith, a, s, e), omega (arith, a, s)))
  ]
]

step_pid-Within :
    (last_pid pid n : ℕ)
    → last_pid ≤ 0xFFFF
    → IsPid pid
    → Within last_pid pid (suc n)
    → (step_pid last_pid ≡ pid) ⊎ Within (step_pid last_pid) pid n
unfolding step_pid
step_pid-Within last_pid pid n l p w = elim (ℕ_discrete last_pid 0xFFFF) [
  | yes e ↦
      let first : step_pid last_pid ≡ 1 = ground (arith, e) in
      step_to last_pid pid n 1 first p (elim w [
        | inl a ↦ absurd (omega (arith, a, e, p))
        | inr b ↦ inl (omega (arith, p), omega (arith, b, e))
      ])
  | no e ↦
      let more : step_pid last_pid ≡ last_pid + 1 = ground (arith, e) in
      step_to last_pid pid n (last_pid + 1) more p (elim w [
        | inl a ↦ inl (omega (arith, a), omega (arith, a))
        | inr b ↦ inr (omega (arith, b), omega (arith, b))
      ])
]

next_pid-some :
    (fuel last_pid pid : ℕ) (ps : List Process)
    → last_pid ≤ 0xFFFF
    → IsPid pid
    → dispatcher_find pid ps ≡ none
    → Within last_pid pid fuel
    → (new_pid : ℕ) × (next_pid fuel last_pid ps ≡ some new_pid)
      × IsPid new_pid
      × (dispatcher_find new_pid ps ≡ none)
unfolding next_pid
next_pid-some zero last_pid pid ps l p f w =
    absurd (elim w [ inl a ↦ omega (arith, a) | inr b ↦ omega (arith, b, l, p) ])
next_pid-some (suc fuel) last_pid pid ps l p f w =
    let is_pid = step_pid-IsPid last_pid l in
    elim (Option-cases (dispatcher_find (step_pid last_pid) ps)) [
      | inl n ↦ (step_pid last_pid, ground (arith, n), is_pid, n)
      | inr (q, n) ↦ elim (step_pid-Within last_pid pid fuel l p w) [
        | inl e ↦ let f' = ap (λ i. dispatcher_find i ps) e ∙ f in absurd (cc)
        | inr w' ↦
            let r = next_pid-some fuel (step_pid last_pid) pid ps is_pid.1 p f w' in
            let there : next_pid (suc fuel) last_pid ps ≡ next_pid fuel (step_pid last_pid) ps =
              ground (arith, n) in
            (r.0, there ∙ r.1, r.2, r.3)
      ]
    ]

-- Where some ID from 1 to 0xFFFF is free, the search for the ID of a new process comes to its end,
-- within 0xFFFF steps from a `last_pid` of 16 bits, and gives such an ID that no process has.
pub next_pid_free :
    (last_pid pid : ℕ) (ps : List Process)
    → last_pid ≤ 0xFFFF
    → IsPid pid
    → dispatcher_find pid ps ≡ none
    → (new_pid : ℕ) × (next_pid 0xFFFF last_pid ps ≡ some new_pid)
      × IsPid new_pid
      × (dispatcher_find new_pid ps ≡ none)
next_pid_free last_pid pid ps l p f =
    next_pid-some 0xFFFF last_pid pid ps l p f (elim (dec_lt last_pid pid) [
      | yes a ↦ inl (a, omega (arith, p))
      | no a ↦ inr (omega (arith, a), omega (arith, a))
    ])

-- An ID that is found is the ID of no process.
pub next_pid_unused :
    (fuel last_pid pid : ℕ) (ps : List Process)
    → next_pid fuel last_pid ps ≡ some pid
    → dispatcher_find pid ps ≡ none
unfolding next_pid
next_pid_unused zero last_pid pid ps h = absurd (cc)
next_pid_unused (suc fuel) last_pid pid ps h =
    elim (Option-cases (dispatcher_find (step_pid last_pid) ps)) [
      | inl n ↦
          let same : step_pid last_pid ≡ pid = ground (arith, n, h) in
          subst (λ i. dispatcher_find i ps ≡ none) same n
      | inr (p, n) ↦ next_pid_unused fuel (step_pid last_pid) pid ps (ground (arith, n, h))
    ]
