-- ===== src/Episode/Codec.antt =====
-- `EpisodeCodec`: the interface through which the stores read a payload. The laws are what both
-- codecs of the program keep: a count is given exactly for a valid episode, and it is positive.
use rllib_async_runtime.Common.{
  ℕ, ◌<◌, String, ◌≡◌, Result, ok, raise, Error, ◌>>◌, ◌⊎◌, inl, inr, refl,
}
use rllib_async_runtime.Episode.Envelope.{EpisodeEnvelope, IsEnvelope}

pub record EpisodeCodec : Type 0 where
  pub codec_id : String
  pub schema_version : ℕ
  pub validate : EpisodeEnvelope → Result (Unit {0})
  pub transition_count : EpisodeEnvelope → Result ℕ
  pub count_of_valid :
      (e : EpisodeEnvelope)
      → IsEnvelope e
      → validate e ≡ ok tt
      → (n : ℕ) × (transition_count e ≡ ok n) × (0 < n)

-- The count as a number, 0 for an episode that is not valid.
abbrev pub or_zero : Result ℕ → ℕ
or_zero (ok n) = n
or_zero (raise _) = 0

unfoldable pub count_of : EpisodeCodec → EpisodeEnvelope → ℕ
count_of codec e = or_zero (codec.transition_count e)

module _ (codec : EpisodeCodec) {e : EpisodeEnvelope} (w : IsEnvelope e)
    (v : codec.validate e ≡ ok tt) where
  pub transition_count-count_of : codec.transition_count e ≡ ok (count_of codec e)
  unfolding count_of
  transition_count-count_of = let (n, p, h) = codec.count_of_valid e w v in rw p

  pub count_of_pos : 0 < count_of codec e
  unfolding count_of
  count_of_pos = let (n, p, h) = codec.count_of_valid e w v in rw p h

  pub examine_lem : (codec.validate e >> codec.transition_count e) ≡ ok (count_of codec e)
  examine_lem = rw v transition_count-count_of

-- Validation and counting of an envelope fail with an exception of the codec, or the episode is valid.
pub validated :
    (codec : EpisodeCodec) (e : EpisodeEnvelope)
    → ((error : Error) × ((codec.validate e >> codec.transition_count e) ≡ raise error))
      ⊎ (codec.validate e ≡ ok tt)
validated codec e = go (codec.validate e) refl
  where
    go :
        (r : Result (Unit {0}))
        → codec.validate e ≡ r
        → ((error : Error) × ((codec.validate e >> codec.transition_count e) ≡ raise error))
          ⊎ (codec.validate e ≡ ok tt)
    go (ok u) p = inr p
    go (raise error) p = inl (error, rw p)
