-- ===== src/Rollout/EpisodeId.antt =====
-- `make_episode_id` of src/rllib_async/rollout/episode_runner.py. `str(n)` of an integer is Python's: it is
-- an argument.
use Prim.Native.Char.{Char, code}
use Prim.Native.String.{◌++◌}
use text.Mathlib.TextLemmas.{nil-append, cons-append}
use rllib_async_runtime.Common.{
  ℕ, ◌≡◌, ◌≢◌, arith, refl, sym, ap, ◌∙◌, String, str_eq, Bool, false, not, ◌&&◌, ◌||◌, ◌==◌,
  Result, ok, value_error, guard, ◌>>=◌, ◌>>◌, >>=-eq-ok, guard-eq-ok, ok-injective,
}
use rllib_async_runtime.Episode.Value.{Value, int, non_negative, non_negative_lem}

-- `"/" in s`
unfoldable pub has_slash : String → Bool
has_slash String.[] = false
has_slash (String.◌∷◌ c s) = code c == b'/' || has_slash s

unfoldable pub path_segment : String → Result (Unit {0})
unfolding has_slash
path_segment s = guard (not (str_eq s "") && not (has_slash s)) value_error

unfoldable pub joined : (member_id runner_id generation seq : String) → String
joined member_id runner_id generation seq =
    member_id ++ ("/" ++ (runner_id ++ ("/" ++ (generation ++ ("/" ++ seq)))))

unfoldable pub make_episode_id :
    (str : ℕ → String)
    → (member_id runner_id : String) → (runner_generation local_episode_seq : Value) → Result String
unfolding path_segment joined
make_episode_id str member_id runner_id runner_generation local_episode_seq = do
  path_segment member_id
  path_segment runner_id
  g ← non_negative value_error runner_generation
  n ← non_negative value_error local_episode_seq
  ok (joined member_id runner_id (str g) (str n))

slash_append : (x : String) → "/" ++ x ≡ String.◌∷◌ "/" x
slash_append x = cons-append "/" String.[] x ∙ ap (String.◌∷◌ "/") (nil-append x)

head-eq : {c d : Char} {s t : String} → String.◌∷◌ c s ≡ String.◌∷◌ d t → (c ≡ d) × (s ≡ t)
head-eq h = (cc, cc)

no_slash : (d : Char) (b : String) → has_slash (String.◌∷◌ d b) ≡ false → d ≢ "/"
unfolding has_slash
no_slash d b p h = cc (rw h at p)

tail-has_slash : (d : Char) (b : String) → has_slash (String.◌∷◌ d b) ≡ false → has_slash b ≡ false
unfolding has_slash
tail-has_slash d b p = ground (arith, p)

-- Two texts without a slash, each followed by a slash and a rest: equal wholes have equal parts.
split_slash :
    (a b : String) (x y : String)
    → has_slash a ≡ false
    → has_slash b ≡ false
    → a ++ ("/" ++ x) ≡ b ++ ("/" ++ y)
    → (a ≡ b) × (x ≡ y)
split_slash String.[] String.[] x y p q h =
    (refl, (head-eq (sym (nil-append _ ∙ slash_append x) ∙ h ∙ nil-append _ ∙ slash_append y)).1)
split_slash String.[] (String.◌∷◌ d b) x y p q h = absurd (
    no_slash d b q
      (sym (head-eq (sym (nil-append _ ∙ slash_append x) ∙ h ∙ cons-append d b ("/" ++ y))).0))
split_slash (String.◌∷◌ c a) String.[] x y p q h = absurd (
    no_slash c a p
      (head-eq (sym (cons-append c a ("/" ++ x)) ∙ h ∙ nil-append _ ∙ slash_append y)).0)
split_slash (String.◌∷◌ c a) (String.◌∷◌ d b) x y p q h =
    let (e, rest) = head-eq (sym (cons-append c a ("/" ++ x)) ∙ h ∙ cons-append d b ("/" ++ y)) in
    let (f, g) = split_slash a b x y (tail-has_slash c a p) (tail-has_slash d b q) rest in (cc, g)

segment_lem : (s : String) {u : Unit {0}} → path_segment s ≡ ok u → has_slash s ≡ false
unfolding path_segment
segment_lem s h = ground (arith, guard-eq-ok _ _ h)

module _ (str : ℕ → String) (injective : (m n : ℕ) → str m ≡ str n → m ≡ n)
    (digits : (n : ℕ) → has_slash (str n) ≡ false) where
  parts :
      (m r : String) (g n : Value) {k : String}
      → make_episode_id str m r g n ≡ ok k
      → (i j : ℕ) × (g ≡ int i)
        × (n ≡ int j)
        × (has_slash m ≡ false)
        × (has_slash r ≡ false)
        × (joined m r (str i) (str j) ≡ k)
  unfolding make_episode_id
  parts m r g n h =
      let (u, a, h1) = >>=-eq-ok (path_segment m) _ h in
      let (v, b, h2) = >>=-eq-ok (path_segment r) _ h1 in
      let (i, c, h3) = >>=-eq-ok (non_negative value_error g) _ h2 in
      let (j, d, h4) = >>=-eq-ok (non_negative value_error n) _ h3 in
      (
        i,
        j,
        non_negative_lem value_error g c,
        non_negative_lem value_error n d,
        segment_lem m a,
        segment_lem r b,
        ok-injective h4,
      )

  -- Where the texts of numbers are distinct and hold no slash: calls that return the same ID were
  -- given the same member, runner, generation and sequence number, each of them valid.
  pub make_episode_id-injective :
      (m r m' r' : String) (g n g' n' : Value) {k : String}
      → make_episode_id str m r g n ≡ ok k
      → make_episode_id str m' r' g' n' ≡ ok k
      → (m ≡ m') × (r ≡ r') × (g ≡ g') × (n ≡ n')
  unfolding joined
  make_episode_id-injective m r m' r' g n g' n' p q =
      let (i, j, gi, nj, ms, rs, w) = parts m r g n p in
      let (i', j', gi', nj', ms', rs', w') = parts m' r' g' n' q in
      let (em, t) = split_slash m m' _ _ ms ms' (w ∙ sym w') in
      let (er, t') = split_slash r r' _ _ rs rs' t in
      let (eg, en) = split_slash (str i) (str i') _ _ (digits i) (digits i') t' in
      (em, er, gi ∙ ap int (injective i i' eg) ∙ sym gi', nj ∙ ap int (injective j j' en) ∙ sym nj')
