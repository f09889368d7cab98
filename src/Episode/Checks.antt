-- ===== src/Episode/Checks.antt =====
-- What the constructor of `EpisodeEnvelope` lets through.
use rllib_async_runtime.Common.{
  ◌≡◌, refl, Bool, true, false, not, ◌||◌, String, str_eq, ok, episode_validation, guard, rethrow,
  >>=-eq-ok, guard-eq-ok, ok-injective, subst,
}
use rllib_async_runtime.Episode.Value.{positive, non_negative, positive_lem}
use rllib_async_runtime.Episode.Versions.{frozen_versions}
use rllib_async_runtime.Episode.Envelope.{
  EpisodeEnvelope, EnvelopeArgs, envelope, non_empty, IsEnvelope,
}

not-true : (b : Bool) → not b ≡ true → b ≡ false
not-true true p = cc
not-true false p = refl

named :
    (k : String) {u : Unit {0}}
    → guard (not (str_eq k "")) episode_validation ≡ ok u
    → str_eq k "" ≡ false
named k p = not-true (str_eq k "") (guard-eq-ok _ _ p)

-- An envelope that the constructor returns is named, has a positive size and positive step counts, has
-- ended, and names at least one behaviour version.
pub envelope-IsEnvelope :
    (a : EnvelopeArgs) {e : EpisodeEnvelope} → envelope a ≡ ok e → IsEnvelope e
unfolding envelope
envelope-IsEnvelope a p =
    let bad = episode_validation in
    let (_, q1, p1) = >>=-eq-ok (guard (not (str_eq a.episode_id "")) bad) _ p in
    let (_, q2, p2) = >>=-eq-ok (guard (not (str_eq a.producer_member_id "")) bad) _ p1 in
    let (_, q3, p3) = >>=-eq-ok (guard (not (str_eq a.runner_id "")) bad) _ p2 in
    let (v, q4, p4) = >>=-eq-ok (positive bad a.schema_version) _ p3 in
    let (g, q5, p5) = >>=-eq-ok (non_negative bad a.runner_generation) _ p4 in
    let (l, q6, p6) = >>=-eq-ok (non_negative bad a.local_episode_seq) _ p5 in
    let (es, q7, p7) = >>=-eq-ok (positive bad a.env_steps) _ p6 in
    let (as', q8, p8) = >>=-eq-ok (positive bad a.agent_steps) _ p7 in
    let (_, q9, p9) = >>=-eq-ok (guard (a.terminated || a.truncated) bad) _ p8 in
    let (b, q10, p10) = >>=-eq-ok (positive bad a.estimated_bytes) _ p9 in
    let (vs, q11, p11) = >>=-eq-ok (rethrow bad (frozen_versions a.behavior_versions)) _ p10 in
    let (_, q12, p12) = >>=-eq-ok (guard (non_empty vs) bad) _ p11 in
    subst IsEnvelope (ok-injective p12) (record {
      episode_named = named a.episode_id q1;
      producer_named = named a.producer_member_id q2;
      runner_named = named a.runner_id q3;
      schema_positive = positive_lem bad a.schema_version q4;
      env_positive = positive_lem bad a.env_steps q7;
      agent_positive = positive_lem bad a.agent_steps q8;
      ended = guard-eq-ok _ _ q9;
      sized = positive_lem bad a.estimated_bytes q10;
      versioned = guard-eq-ok _ _ q12;
    })
