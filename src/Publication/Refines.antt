-- ===== src/Publication/Refines.antt =====
-- What a build of docs-api/app/generator.py still checks of a corpus that a passed change made.
use docplane.Base.{
  String, ◌≡◌, refl, ap, ◌∙◌, ◌↔◌, Bool, true, false, not, ◌&&◌, none, List, [], ◌∷◌, ◌++◌, map,
  arith, ◌==◌, eq_iff, is_some, eq_refl,
}
use docplane.Base.Strip.{strip}
use docplane.Base.Sets.{mem, mem-append}
use docplane.Base.Lists.{all}
use docplane.Base.Sorting.{sort_by, insert_by}
use docplane.Base.Dict.{Dict, entry_key, keys}
use docplane.Publication.Types.{Page, Operation, Env}
use docplane.Publication.Candidate.{path_valid, path_tail}
use docplane.Publication.Checks.{paths, active_pages}
use docplane.Publication.Sound.{redirects_lead, evaluate_change-IsConsistent}
use docplane.Publication.Evaluate.{Corpus, evaluate_change, passed}
use docplane.Publication.Build.{
  ends_md, rendered_url, redirect_conflict_of, first_conflict, validate_redirects, claims,
  claimed_twice, validate_routes, page_error, build_error,
}

path_tail-ends_md : (s : String) → path_tail s ≡ true → ends_md s ≡ true
unfolding path_tail ends_md
path_tail-ends_md String.[] h = ground arith
path_tail-ends_md (String.◌∷◌ c s) h = ground (arith, path_tail-ends_md s)

path_valid-ends_md : (s : String) → path_valid s ≡ true → ends_md s ≡ true
unfolding path_valid ends_md
path_valid-ends_md String.[] h = ground arith
path_valid-ends_md (String.◌∷◌ c s) h = ground (arith, path_tail-ends_md s)

-- No page is blank.
abbrev pub has_content : Page → Bool
has_content p = not (strip p.content == "")

page_error_iff :
    (pages : List Page)
    → all path_valid (paths pages) ≡ true
    → (page_error pages ≡ none) ↔ (all has_content pages ≡ true)
unfolding page_error all
page_error_iff [] h = ground arith
page_error_iff (p ∷ ps) h = ground (arith, page_error_iff ps, path_valid-ends_md p.path)

mem-map :
    (f : String → String) (k : String) (xs : List String)
    → mem k xs ≡ true
    → mem (f k) (map f xs) ≡ true
unfolding mem
mem-map f k [] h = ground arith
mem-map f k (x ∷ xs) h = ground (arith, mem-map f k xs, eq_iff x k, eq_refl (f k))

claimed_twice-append :
    (k : String) (xs ys : List String)
    → claimed_twice (xs ++ ys) ≡ false
    → (mem k xs && mem k ys) ≡ false
unfolding claimed_twice mem
claimed_twice-append k [] ys h = refl
claimed_twice-append k (x ∷ xs) ys h =
    ground (arith, claimed_twice-append k xs ys, mem-append x xs ys, eq_iff x k)

-- A redirect and an active page of a corpus without double claims have different addresses.
claimed_apart :
    (pages : List Page) (redirects : Dict String) (source target : String)
    → claimed_twice (claims pages redirects) ≡ false
    → mem source (keys redirects) ≡ true
    → mem target (paths pages) ≡ true
    → (rendered_url source == rendered_url target) ≡ false
unfolding claims
claimed_apart pages redirects source target h k l = ground (
  arith,
  claimed_twice-append (rendered_url target) (map rendered_url (paths pages))
      (map rendered_url (keys redirects)) h,
  mem-map rendered_url target (paths pages) l,
  mem-map rendered_url source (keys redirects) k,
  eq_iff (rendered_url source) (rendered_url target),
)

all-mem :
    (p : String → Bool) (k : String) (xs : List String)
    → all p xs ≡ true
    → mem k xs ≡ true
    → p k ≡ true
unfolding all mem
all-mem p k [] h l = ground arith
all-mem p k (x ∷ xs) h l = ground (arith, all-mem p k xs, eq_iff x k)

module _ (pages : List Page) (redirects : Dict String)
    (apart : (k : String) → (mem k (keys redirects) && mem k (paths pages)) ≡ false)
    (pages_valid : all path_valid (paths pages) ≡ true)
    (sources_valid : all path_valid (keys redirects) ≡ true)
    (routes : claimed_twice (claims pages redirects) ≡ false) where
  redirect_conflict_of-none :
      (source target : String)
      → mem source (keys redirects) ≡ true
      → mem target (paths pages) ≡ true
      → (source == target) ≡ false
      → redirect_conflict_of (paths pages) redirects source target ≡ none
  unfolding redirect_conflict_of
  redirect_conflict_of-none source target s t n = ground (
    arith,
    path_valid-ends_md source (all-mem path_valid source (keys redirects) sources_valid s),
    path_valid-ends_md target (all-mem path_valid target (paths pages) pages_valid t),
    apart source,
    apart target,
    claimed_apart pages redirects source target routes s t,
  )

  -- Of entries of the redirects, none has a conflict.
  first_conflict-none :
      (rest : Dict String)
      → redirects_lead (paths pages) rest ≡ true
      → all (λ k. mem k (keys redirects)) (keys rest) ≡ true
      → first_conflict (paths pages) redirects rest ≡ none
  unfolding first_conflict redirects_lead all
  first_conflict-none [] h k = refl
  first_conflict-none ((source, target) ∷ rest) h k =
      ground (arith, first_conflict-none rest, redirect_conflict_of-none source target)

redirects_lead-insert_by :
    (active : List String) (e : String × String) (d : Dict String)
    → redirects_lead active (insert_by entry_key e d) ≡ redirects_lead active (e ∷ d)
unfolding redirects_lead insert_by
redirects_lead-insert_by active e [] = refl
redirects_lead-insert_by active e (x ∷ d) = ground (arith, redirects_lead-insert_by active e d)

redirects_lead-sort_by :
    (active : List String) (d : Dict String)
    → redirects_lead active (sort_by entry_key d) ≡ redirects_lead active d
unfolding redirects_lead sort_by
redirects_lead-sort_by active [] = refl
redirects_lead-sort_by active (e ∷ d) =
    redirects_lead-insert_by active e (sort_by entry_key d)
    ∙ ap (λ b. not (e.0 == e.1) && mem e.1 active && b) (redirects_lead-sort_by active d)

all-keys-insert_by :
    (p : String → Bool) (e : String × String) (d : Dict String)
    → all p (keys (insert_by entry_key e d)) ≡ (p e.0 && all p (keys d))
unfolding all insert_by
all-keys-insert_by p e [] = refl
all-keys-insert_by p e (x ∷ d) = ground (arith, all-keys-insert_by p e d)

all-keys-sort_by :
    (p : String → Bool) (d : Dict String) → all p (keys (sort_by entry_key d)) ≡ all p (keys d)
unfolding all sort_by
all-keys-sort_by p [] = refl
all-keys-sort_by p (e ∷ d) =
    all-keys-insert_by p e (sort_by entry_key d) ∙ ap (λ b. p e.0 && b) (all-keys-sort_by p d)

all_weaken :
    (p q : String → Bool) (xs : List String)
    → ((k : String) → p k ≡ true → q k ≡ true)
    → all p xs ≡ true
    → all q xs ≡ true
unfolding all
all_weaken p q [] f h = refl
all_weaken p q (x ∷ xs) f h = ground (arith, f x, all_weaken p q xs f)

all-mem_self : (xs : List String) → all (λ k. mem k xs) xs ≡ true
unfolding all mem
all-mem_self [] = refl
all-mem_self (x ∷ xs) = ground (
  arith,
  eq_refl x,
  all_weaken (λ k. mem k xs) (λ k. mem k (x ∷ xs)) xs (λ k h. ground arith) (all-mem_self xs),
)

validate_redirects-none :
    (pages : List Page) (redirects : Dict String)
    → ((k : String) → (mem k (keys redirects) && mem k (paths pages)) ≡ false)
    → all path_valid (paths pages) ≡ true
    → all path_valid (keys redirects) ≡ true
    → claimed_twice (claims pages redirects) ≡ false
    → redirects_lead (paths pages) redirects ≡ true
    → validate_redirects redirects pages ≡ none
unfolding validate_redirects
validate_redirects-none pages redirects a p s r l =
    first_conflict-none pages redirects a p s r (sort_by entry_key redirects)
      (redirects_lead-sort_by (paths pages) redirects ∙ l)
      (all-keys-sort_by (λ k. mem k (keys redirects)) redirects ∙ all-mem_self (keys redirects))

build_error_iff :
    (pages : List Page) (redirects : Dict String) (nav_fails : Bool)
    → ((k : String) → (mem k (keys redirects) && mem k (paths pages)) ≡ false)
    → redirects_lead (paths pages) redirects ≡ true
    → nav_fails ≡ false
    → all path_valid (paths pages) ≡ true
    → all path_valid (keys redirects) ≡ true
    → (build_error pages redirects nav_fails ≡ none)
      ↔ ((all has_content pages && not (claimed_twice (claims pages redirects))) ≡ true)
unfolding build_error validate_routes
build_error_iff pages redirects nav_fails apart lead nav p s =
    ground (arith, page_error_iff pages p, validate_redirects-none pages redirects apart p s)

-- The build of the corpus that a passed change makes. The schema's checks on docs.pages and
-- docs.redirects hold of its paths (they match the path pattern); then the build raises nothing
-- exactly when no active page is blank and no address is claimed twice: of what `run` refuses, these
-- two are all that the evaluation leaves to it.
pub evaluate_change-build_error :
    (env : Env) (operations : List Operation) (corpus : Corpus)
    → passed (evaluate_change env operations corpus) ≡ true
    → let c = (evaluate_change env operations corpus).candidate in
      let pages = active_pages c.pages in
      all path_valid (paths pages) ≡ true
      → all path_valid (keys c.redirects) ≡ true
      → (build_error pages c.redirects (is_some (env.nav_conflict pages c.sections)) ≡ none)
        ↔ ((all has_content pages && not (claimed_twice (claims pages c.redirects))) ≡ true)
evaluate_change-build_error env operations corpus h p s =
    let c = (evaluate_change env operations corpus).candidate in
    let pages = active_pages c.pages in
    let sound = evaluate_change-IsConsistent env operations corpus h in
    build_error_iff pages c.redirects (is_some (env.nav_conflict pages c.sections)) sound.1.1
      sound.1.2 (ap is_some sound.2) p s
