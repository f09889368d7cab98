-- ===== src/Rollout/Arrivals.antt =====
-- The calls that end keep the invariant, whatever they return, also where the method raises.
use rllib_async_runtime.Common.{
  ℕ, zero, suc, ◌+◌, ◌-◌, ◌≤◌, ◌<◌, ◌≡◌, ◌⊎◌, inl, inr, refl, String, str_eq, eq_iff, eq_refl, ap,
  Bool-cases, Bool, true, false, some, List, [], ◌∷◌, ◌++◌, length, drop, length-append, arith,
  if_ind, if◌then◌else◌, Error, Result, ok, raise, Result-cases, ◌==◌, rollout_group,
}
use rllib_async_runtime.Dict.{lookup}
use rllib_async_runtime.Episode.Envelope.{EpisodeEnvelope}
use rllib_async_runtime.Rollout.{PendingCommit, AsyncRolloutGroup}
use rllib_async_runtime.Rollout.Action.{Action, after, ◌>>=◌, ◌>>◌, throw, modify, require}
use rllib_async_runtime.Rollout.Schedule.{outstanding}
use rllib_async_runtime.Rollout.Group.{
  SampleOutcome, sample_failed, sample_invalid, sampled, Arrival, find_call, drop_call,
  append_within, policy_lag, fail_sample, fail_commit, check_sample, collect, submit_commit,
  finish_sample,
}
use rllib_async_runtime.Rollout.Invariant.{occurrences, occurrences-append, collecting, IsSound}

-- A method that leaves a sound group whenever it is called on one.
abbrev pub Keeps {ℓ} : {A : Type ℓ} → Action A → Type 0
Keeps m = (g : AsyncRolloutGroup) → IsSound g → IsSound (m g).1

module _ {ℓ κ} {A : Type ℓ} {B : Type κ} where
  after-IsSound :
      (x : Result A × AsyncRolloutGroup) (next : A → Action B)
      → IsSound x.1
      → ((a : A) → Keeps (next a))
      → IsSound (after x next).1
  after-IsSound (raise e, g) next h k = h
  after-IsSound (ok a, g) next h k = k a g h

  pub >>=-Keeps :
      (m : Action A) (next : A → Action B)
      → Keeps m
      → ((a : A) → Keeps (next a))
      → Keeps (m >>= next)
  >>=-Keeps m next h k g s = after-IsSound (m g) next (h g s) k

pub require-Keeps : (b : Bool) (e : Error) → Keeps (require b e)
require-Keeps true e g h = h
require-Keeps false e g h = h

module _ {ℓ} {A : Type ℓ} where
  pub length-drop_call :
      (calls : List (ℕ × A)) (c : ℕ) (a : A)
      → find_call calls c ≡ some a
      → length calls ≡ suc (length (drop_call calls c))
  unfolding find_call drop_call
  length-drop_call [] c a h = cc
  length-drop_call ((d, b) ∷ calls) c a h = ground (arith, length-drop_call calls c a)

occurrences-drop_call :
    (calls : List (ℕ × String)) (c : ℕ) (r k : String)
    → find_call calls c ≡ some r
    → occurrences k (collecting calls)
      ≡ (if str_eq r k then 1 else 0) + occurrences k (collecting (drop_call calls c))
unfolding find_call drop_call
occurrences-drop_call [] c r k h = cc
occurrences-drop_call ((d, b) ∷ calls) c r k h = ground (arith, occurrences-drop_call calls c r k)

length-drop : (n : ℕ) (xs : List ℕ) → length (drop n xs) ≡ length xs - n
length-drop zero xs = omega arith
length-drop (suc n) [] = omega arith
length-drop (suc n) (x ∷ xs) = omega (arith, length-drop n xs)

length-append_within :
    (n : ℕ) (xs : List ℕ) (x : ℕ) → length xs ≤ n → length (append_within n xs x) ≤ n
unfolding append_within
length-append_within n xs x h =
    omega (arith, length-drop (length xs + 1 - n) (xs ++ x ∷ []), length-append {0} xs (x ∷ []))

-- How the checks on a result end: nothing changes, or a failure is counted.
check_sample_cases :
    (r : String) (o : SampleOutcome) (g : AsyncRolloutGroup)
    → ((e : EpisodeEnvelope) × (check_sample r o g ≡ (ok e, g)))
      ⊎ ((error : Error) × ((check_sample r o g ≡ (raise error, g))
            ⊎ (check_sample r o g ≡ (raise error, fail_sample g))))
unfolding check_sample
check_sample_cases r sample_failed g = inr (_, inr refl)
check_sample_cases r sample_invalid g = inr (_, inr refl)
check_sample_cases r (sampled e) g = elim (Bool-cases (str_eq e.runner_id r)) [
  | inr p ↦ inr (rollout_group, inr (rw p))
  | inl p ↦ elim (Result-cases (lookup g.runner_generations r)) [
    | inl (x, q) ↦ inr (x, inl (rw (p, q)))
    | inr (n, q) ↦ elim (Bool-cases (e.runner_generation == n)) [
      | inr f ↦ inr (rollout_group, inr (rw (p, q, f)))
      | inl f ↦ inl (e, rw (p, q, f))
    ]
  ]
]

-- While a runner is in no call and not idle, and its call is not yet counted.
record IsHolding (r : String) (g : AsyncRolloutGroup) : Type 0 where
  sound : IsSound g
  free : occurrences r g.idle_runners + occurrences r (collecting g.pending_samples) ≡ 0
  spare : g.episodes_collected + length g.pending_samples < g.sample_calls_started
  room : outstanding g < g.high_watermark

fail_sample-IsSound : (g : AsyncRolloutGroup) → IsSound g → IsSound (fail_sample g)
fail_sample-IsSound g h = record {
  bounded = h.bounded;
  single = h.single;
  collected = h.collected;
  committed = h.committed;
  pressed = h.pressed;
  window = h.window;
}

pub fail_commit-IsSound : (g : AsyncRolloutGroup) → IsSound g → IsSound (fail_commit g)
fail_commit-IsSound g h = record {
  bounded = h.bounded;
  single = h.single;
  collected = h.collected;
  committed = h.committed;
  pressed = h.pressed;
  window = h.window;
}

collect-IsSound :
    (r : String) (e : EpisodeEnvelope) (lag : ℕ) (g : AsyncRolloutGroup)
    → IsHolding r g
    → IsSound (collect r e lag g)
unfolding append_within
collect-IsSound r e lag g h = record {
  bounded = h.sound.bounded;
  single = λ k. ground (
    arith,
    h.sound.single k,
    h.free,
    eq_iff r k,
    occurrences-append k g.idle_runners (r ∷ []),
    ap (λ j. occurrences j g.idle_runners + occurrences j (collecting g.pending_samples)) {x = r}
        {y = k},
  );
  collected = omega (arith, h.spare);
  committed = omega (arith, h.sound.committed);
  pressed = h.sound.pressed;
  window = length-append_within g.metrics_window g.policy_lags lag h.sound.window;
}

submit_commit-IsSound :
    (p : PendingCommit) (g : AsyncRolloutGroup)
    → outstanding g < g.high_watermark
    → g.episodes_committed + length g.pending_commits < g.episodes_collected
    → IsSound g
    → IsSound (submit_commit p g)
submit_commit-IsSound p g room fewer h =
    let l = length-append {0} g.pending_commits ((g.calls, p) ∷ []) in
    record {
      bounded = omega (arith, l);
      single = h.single;
      collected = h.collected;
      committed = omega (arith, l);
      pressed = h.pressed;
      window = h.window;
    }

dropped-IsHolding :
    (g : AsyncRolloutGroup) (c : ℕ) (r : String)
    → find_call g.pending_samples c ≡ some r
    → IsSound g
    → IsHolding r (record g { pending_samples = drop_call g.pending_samples c })
dropped-IsHolding g c r p h =
    let l = length-drop_call g.pending_samples c r p in
    let o = λ (k : String). occurrences-drop_call g.pending_samples c r k p in
    record {
      sound = record {
        bounded = omega (arith, l, h.bounded);
        single = λ k. omega (arith, o k, h.single k);
        collected = omega (arith, l, h.collected);
        committed = h.committed;
        pressed = h.pressed;
        window = h.window;
      };
      free = ground (arith, o r, h.single r, eq_refl r);
      spare = omega (arith, l, h.collected);
      room = omega (arith, l, h.bounded);
    }

abbrev submission : String → Arrival → EpisodeEnvelope → ℕ → Action (Unit {0})
submission r a e lag =
    if a.submits
    then modify (submit_commit (record { runner_id = r; episode = e; policy_version_lag = lag }))
    else (modify fail_commit >> throw rollout_group)

submitted :
    (r : String) (a : Arrival) (e : EpisodeEnvelope) (lag : ℕ) (g : AsyncRolloutGroup)
    → IsHolding r g
    → IsSound (submission r a e lag (collect r e lag g)).1
unfolding append_within
submitted r a e lag g h =
    if_ind (λ (m : Action (Unit {0})). IsSound (m (collect r e lag g)).1) a.submits
      (λ _.
        submit_commit-IsSound _ (collect r e lag g) h.room (omega (arith, h.sound.committed))
          (collect-IsSound r e lag g h))
      (λ _. fail_commit-IsSound (collect r e lag g) (collect-IsSound r e lag g h))

pub finish_sample-IsSound :
    (r : String) (a : Arrival) (g : AsyncRolloutGroup)
    → find_call g.pending_samples a.call ≡ some r
    → IsSound g
    → IsSound (finish_sample r a g).1
unfolding finish_sample
finish_sample-IsSound r a g p h =
    let g' : AsyncRolloutGroup = record g {
      pending_samples = drop_call g.pending_samples a.call;
    } in
    let held = dropped-IsHolding g a.call r p h in
    elim (check_sample_cases r a.sample_outcome g') [
      | inr (x, inl q) ↦ rw (q, finish_sample) held.sound
      | inr (x, inr q) ↦ rw (q, finish_sample) (fail_sample-IsSound g' held.sound)
      | inl (e, q) ↦ elim (Result-cases (policy_lag g.latest_weights e)) [
        | inl (x, l) ↦ rw (q, l, finish_sample) held.sound
        | inr (lag, l) ↦ rw (q, l, finish_sample) (submitted r a e lag g' held)
      ]
    ]
