-- ===== src/Api/RateLimit/Bounds.antt =====
-- What a bucket grants over a stretch of requests.
use mcpdrill.Prelude.{
  ℕ, ◌+◌, ◌*◌, ◌≤◌, ◌≡◌, refl, sym, ap, subst, ◌∙◌, List, [], ◌∷◌, if◌then◌else◌, arith,
}
use mcpdrill.Prelude.Int.{pos_part, neg_part}
use mcpdrill.Api.RateLimit.{TokenBucket, token, new_token_bucket, take}

-- Requests at the given times: the bucket after them, and how many were granted.
unfoldable pub take_all : TokenBucket → List ℕ → TokenBucket × ℕ
take_all b [] = (b, 0)
take_all b (t ∷ ts) =
    let r = take b t in let rest = take_all r.0 ts in (rest.0, (if r.1 then 1 else 0) + rest.1)

abbrev pub IsOrderedFrom : ℕ → List ℕ → Type 0
IsOrderedFrom t [] = Unit
IsOrderedFrom t (u ∷ us) = (t ≤ u) × IsOrderedFrom u us

pub record IsFilled (b : TokenBucket) : Type 0 where
  pub not_negative : neg_part b.tokens ≡ 0
  pub capped : pos_part b.tokens ≤ b.max_tokens

mul_mono : (a b r : ℕ) → a ≤ b → a * r ≤ b * r
mul_mono a b r h = grind arith

pub record Takes (b : TokenBucket) (now : ℕ) (c : TokenBucket) (granted : ℕ) : Type 0 where
  pub fills : IsFilled c
  pub max_stays : c.max_tokens ≡ b.max_tokens
  pub rate_stays : c.refill_rate ≡ b.refill_rate
  pub moved : c.last_refill_ns ≡ now
  pub spent :
      pos_part c.tokens + granted * token + b.last_refill_ns * b.refill_rate
      ≤ pos_part b.tokens + now * b.refill_rate

take-Takes :
    (b : TokenBucket) (now : ℕ)
    → IsFilled b
    → b.last_refill_ns ≤ now
    → Takes b now (take b now).0 (if (take b now).1 then 1 else 0)
unfolding take
take-Takes b now v h =
    let m = mul_mono b.last_refill_ns now b.refill_rate h in
    record {
      fills = ground arith;
      max_stays = ground arith;
      rate_stays = ground arith;
      moved = ground arith;
      spent = ground arith;
    }

abbrev pub last_of : ℕ → List ℕ → ℕ
last_of t [] = t
last_of t (u ∷ us) = last_of u us

-- What follows a stretch of requests from a filled bucket.
pub record Stretch (b : TokenBucket) (ts : List ℕ) (c : TokenBucket) (granted : ℕ) : Type 0 where
  pub fills : IsFilled c
  pub max_stays : c.max_tokens ≡ b.max_tokens
  pub rate_stays : c.refill_rate ≡ b.refill_rate
  pub moved : c.last_refill_ns ≡ last_of b.last_refill_ns ts
  pub spent :
      pos_part c.tokens + granted * token + b.last_refill_ns * b.refill_rate
      ≤ pos_part b.tokens + last_of b.last_refill_ns ts * b.refill_rate

pub take_all-Stretch :
    (b : TokenBucket) (ts : List ℕ)
    → IsFilled b
    → IsOrderedFrom b.last_refill_ns ts
    → Stretch b ts (take_all b ts).0 (take_all b ts).1
unfolding take_all
take_all-Stretch b [] v o = record {
  fills = v;
  max_stays = refl;
  rate_stays = refl;
  moved = refl;
  spent = omega arith;
}
take_all-Stretch b (t ∷ ts) v o =
    let s = take-Takes b t v o.0 in
    let o' = subst (λ u. IsOrderedFrom u ts) (sym s.moved) o.1 in
    let r = take_all-Stretch (take b t).0 ts s.fills o' in
    let at = ap (λ u. last_of u ts) s.moved in
    let rated = ap (λ (x : ℕ). last_of (take b t).0.last_refill_ns ts * x) s.rate_stays in
    let moved_rated = ap (λ (x : ℕ). x * b.refill_rate) at in
    let first_rated = ap (λ (x : ℕ). x * (take b t).0.refill_rate) s.moved in
    let second_rated = ap (λ (x : ℕ). t * x) s.rate_stays in
    record {
      fills = r.fills;
      max_stays = r.max_stays ∙ s.max_stays;
      rate_stays = r.rate_stays ∙ s.rate_stays;
      moved = r.moved ∙ at;
      spent = omega (arith, r.spent, s.spent, rated, moved_rated, first_rated, second_rated);
    }

-- A clock that is not set back reads `before` and then `after` at the requests of a new bucket. The
-- tokens that are granted at the times `after` are no more than the burst and what the rate adds
-- from the last request before them to the last of them, wherever in the history they stand.
pub take_all-rate :
    (rate burst made : ℕ) (before after : List ℕ)
    → IsOrderedFrom made before
    → IsOrderedFrom (last_of made before) after
    → (take_all (take_all (new_token_bucket rate burst made) before).0 after).1 * token
        + last_of made before * rate
      ≤ burst * token + last_of (last_of made before) after * rate
unfolding new_token_bucket
take_all-rate rate burst made before after o o' =
    let b = new_token_bucket rate burst made in
    let s = take_all-Stretch b before (record { not_negative = refl; capped = omega arith }) o in
    let c = (take_all b before).0 in
    let r =
      take_all-Stretch c after s.fills (subst (λ u. IsOrderedFrom u after) (sym s.moved) o') in
    let from = ap (λ (x : ℕ). x * rate) s.moved in
    let till = ap (λ u. last_of u after * rate) s.moved in
    let rated = ap (λ (x : ℕ). c.last_refill_ns * x) s.rate_stays in
    let rated' = ap (λ (x : ℕ). last_of c.last_refill_ns after * x) s.rate_stays in
    let max = s.max_stays in omega (arith, r.spent, s.fills, max, from, till, rated, rated')
