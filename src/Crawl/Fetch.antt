-- ===== src/Crawl/Fetch.antt =====
-- `BaseCrawler` of crawlers/base.py: deduplication and `fetch` with its retries. What an attempt of the
-- subclass's `fetch_items` comes to, the client's construction included, is an argument, and so is the
-- digest. A text is the list of its code points.
use hype_coin_predictive_eng.Prelude.{
  ℕ, zero, suc, ◌+◌, String, Option, none, some, List, [], ◌∷◌, ◌++◌, ltb, if◌then◌else◌, length,
  take, mem, ◌≡◌, ◌⊎◌, inl, inr, refl, str_eq,
}
use hype_coin_predictive_eng.Float.{Float}
use hype_coin_predictive_eng.Crawl.Health.{
  CrawlerHealth, record_success, record_empty_run, record_error, is_healthy,
}

pub record CrawlItem : Type 0 where
  pub title : List ℕ
  pub url : List ℕ
  pub text : List ℕ

pub data Attempt : Type 0 where
  fetched : List CrawlItem → Attempt
  failed : String → Attempt

pub Attempt-cases :
    (a : Attempt)
    → ((items : List CrawlItem) × (a ≡ fetched items)) ⊎ ((e : String) × (a ≡ failed e))
Attempt-cases (fetched items) = inl (items, refl)
Attempt-cases (failed e) = inr (e, refl)

-- What the crawler meets during one `fetch`: the source at each attempt, the time, the duration.
pub record Meeting (F : Type 0) : Type 0 where
  pub attempt : ℕ → Attempt
  pub now : ℕ
  pub duration_ms : F

pub record Crawler (F : Type 0) : Type 0 where
  pub max_retries : ℕ
  pub health : CrawlerHealth F
  pub seen_hashes : List String

-- `sha256(...).hexdigest()[:16]`, and what `list(seen)[-25_000:]` keeps of a set, whose order is not
-- specified.
pub record Digest : Type 0 where
  pub digest : List ℕ → String
  pub newest : List String → List String

module _ (g : Digest) where
  unfoldable pub item_hash : CrawlItem → String
  item_hash i = g.digest (i.title ++ (i.url ++ take 200 i.text))

  -- The loop over the items: the unique ones, and the hashes seen.
  unfoldable pub deduplicate_loop : List CrawlItem → List String → List CrawlItem × List String
  unfolding item_hash
  deduplicate_loop [] seen = ([], seen)
  deduplicate_loop (i ∷ items) seen =
      let h = item_hash i in
      let (unique, all_seen) =
        deduplicate_loop items (if mem h seen then seen else seen ++ (h ∷ [])) in
      ((if mem h seen then unique else i ∷ unique), all_seen)

  unfoldable pub deduplicate : List CrawlItem → List String → List CrawlItem × List String
  unfolding deduplicate_loop
  deduplicate items seen =
      let (unique, all_seen) = deduplicate_loop items seen in
      (unique, (if ltb 50000 (length all_seen) then g.newest all_seen else all_seen))

  module _ (f : Float) where
    open f use {Carrier}

    -- An attempt that returned items.
    unfoldable pub succeed :
        ℕ → Carrier → List CrawlItem → Crawler Carrier → List CrawlItem × Crawler Carrier
    unfolding deduplicate
    succeed now duration_ms items c =
        let (unique, seen) = deduplicate items c.seen_hashes in
        (
          unique,
          record c {
            seen_hashes = seen;
            health =
                if ltb 0 (length unique)
                then record_success f now (length unique) duration_ms c.health
                else record_empty_run f now duration_ms c.health;
          },
        )

    -- `last_error or "unknown error"`
    abbrev error_text : Option String → String
    error_text none = "unknown error"
    error_text (some e) = if str_eq e "" then "unknown error" else e

    -- After the last attempt.
    unfoldable pub give_up :
        ℕ → Carrier → Option String → Crawler Carrier → List CrawlItem × Crawler Carrier
    give_up now duration_ms error c = (
      [],
      record c {
        health = record (record_error f now (error_text error) c.health) {
          last_duration_ms = duration_ms;
        };
      },
    )

    -- The attempts that are left, from the given one on.
    unfoldable pub fetch_loop :
        ℕ → ℕ → Option String → Meeting Carrier → Crawler Carrier → List CrawlItem × Crawler Carrier
    unfolding succeed give_up
    fetch_loop zero attempt last_error m c = give_up m.now m.duration_ms last_error c
    fetch_loop (suc left) attempt last_error m c = elim (m.attempt attempt) [
      | fetched items ↦ succeed m.now m.duration_ms items c
      | failed error ↦ fetch_loop left (attempt + 1) (some error) m c
    ]

    unfoldable pub fetch : Meeting Carrier → Crawler Carrier → List CrawlItem × Crawler Carrier
    unfolding fetch_loop
    fetch m c = if is_healthy f c.health then fetch_loop (c.max_retries + 1) 0 none m c else ([], c)
