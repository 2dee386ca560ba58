-- ===== src/Repository/Migrations/Scripts.antt =====
-- Which scripts `RunMigrations` (internal/repository/store.go) runs, and in which order.
use temporal_durable_event_p.Base.{
  ℕ, String, Bool, true, false, Option, none, some, List, [], ◌∷◌, ◌++◌, ◌≡◌, refl, arith, keep,
  map, inl, inr, Bool-cases, Option-cases, take, length, ◌<◌, suc, sym, any, str_eq, ◌⊎◌,
}
use text.Mathlib.TextPositions.{eq_refl}
use temporal_durable_event_p.Base.Exec.{ok, err, Result}
use temporal_durable_event_p.Repository.Db.Ordering.{All, All-map}
use temporal_durable_event_p.Repository.Migrations.{
  Migrator, MigrationError, Schema, extract_goose_up, is_sql, str_leb, insert_name, sort_names,
  run_files, run_migrations, migration_failed, executed,
}
use mathlib.Core.Path.{subst}
use mathlib.Core.List.{Perm, append-nil, append_assoc}
use temporal_durable_event_p.Repository.Db.{Delivery, answered, refused, reply_lost}
use mathlib.Core.List.Perm

-- Each name is at most those behind it.
abbrev pub AreSorted : List String → Type 0
AreSorted [] = Unit
AreSorted (s ∷ ss) = All (λ t. str_leb s t ≡ true) ss × AreSorted ss

str_leb_total : (s t : String) → str_leb s t ≡ false → str_leb t s ≡ true
unfolding str_leb
str_leb_total String.[] t h = cc
str_leb_total (String.◌∷◌ c s) String.[] h = refl
str_leb_total (String.◌∷◌ c s) (String.◌∷◌ d t) h =
    let rest : str_leb s t ≡ false → str_leb t s ≡ true = str_leb_total s t in ground (arith, rest)

str_leb_trans : (s t u : String) → str_leb s t ≡ true → str_leb t u ≡ true → str_leb s u ≡ true
unfolding str_leb
str_leb_trans String.[] t u h k = refl
str_leb_trans (String.◌∷◌ c s) String.[] u h k = cc
str_leb_trans (String.◌∷◌ c s) (String.◌∷◌ d t) String.[] h k = cc
str_leb_trans (String.◌∷◌ c s) (String.◌∷◌ d t) (String.◌∷◌ e u) h k =
    let rest : str_leb s t ≡ true → str_leb t u ≡ true → str_leb s u ≡ true = str_leb_trans s t u in
    ground (arith, rest)

All-insert_name :
    (P : String → Type 0) (s : String) (ss : List String)
    → P s
    → All P ss
    → All P (insert_name s ss)
unfolding insert_name
All-insert_name P s [] p h = (p, tt)
All-insert_name P s (t ∷ ss) p h = elim (Bool-cases (str_leb s t)) [
  | inl y ↦ rw y (p, h)
  | inr n ↦ rw n (h.0, All-insert_name P s ss p h.1)
]

insert_name-AreSorted :
    (s : String) (ss : List String) → AreSorted ss → AreSorted (insert_name s ss)
unfolding insert_name
insert_name-AreSorted s [] h = (tt, tt)
insert_name-AreSorted s (t ∷ ss) h = elim (Bool-cases (str_leb s t)) [
  | inl y ↦ rw y ((y, All-map ss (λ u k. str_leb_trans s t u y k) h.0), h)
  | inr n ↦ rw n (
    All-insert_name (λ u. str_leb t u ≡ true) s ss (str_leb_total s t n) h.0,
    insert_name-AreSorted s ss h.1,
  )
]

-- `sort.Strings` puts the names in ascending order.
pub sort_names-AreSorted : (ss : List String) → AreSorted (sort_names ss)
unfolding sort_names
sort_names-AreSorted [] = tt
sort_names-AreSorted (s ∷ ss) = insert_name-AreSorted s (sort_names ss) (sort_names-AreSorted ss)

insert_name-perm : (s : String) (ss : List String) → Perm (insert_name s ss) (s ∷ ss)
unfolding insert_name
insert_name-perm s [] = Perm.refl _
insert_name-perm s (t ∷ ss) = elim (Bool-cases (str_leb s t)) [
  | inl y ↦ rw y (Perm.refl _)
  | inr n ↦ rw n (Perm.trans (Perm.cons t (insert_name-perm s ss)) (Perm.swap s t ss))
]

-- The names are those that there were, each as often.
pub sort_names-perm : (ss : List String) → Perm (sort_names ss) ss
unfolding sort_names
sort_names-perm [] = Perm.refl _
sort_names-perm (s ∷ ss) =
    Perm.trans (insert_name-perm s (sort_names ss)) (Perm.cons s (sort_names-perm ss))

module _ (m : Migrator) (dir : String) where
  -- The script of a file, empty where it cannot be read.
  abbrev pub script_of : Option String → String
  script_of none = ""
  script_of (some content) = extract_goose_up content

  abbrev pub scripts : List String → List String
  scripts names = map (λ name. script_of (m.read_file dir name)) names

  abbrev pub HasRun : Result MigrationError (Unit {0}) → List String → Schema → Schema → Type 0
  HasRun (ok _) names schema' schema = schema' ≡ schema ++ scripts names
  HasRun (err _) names schema' schema =
      (n : ℕ) × (n < length names)
      × ((schema' ≡ schema ++ scripts (take n names))
          ⊎ (schema' ≡ schema ++ scripts (take (suc n) names)))

  HasRun-cons :
      (r : Result MigrationError (Unit {0})) (name : String) (names : List String) (sql : String)
      (schema' schema : Schema)
      → script_of (m.read_file dir name) ≡ sql
      → HasRun r names schema' (schema ++ sql ∷ [])
      → HasRun r (name ∷ names) schema' schema
  HasRun-cons (ok _) name names sql schema' schema e h = rw (e, h, append_assoc) refl
  HasRun-cons (err _) name names sql schema' schema e (n, less, inl h) =
      (suc n, omega arith, inl (rw (e, h, append_assoc) refl))
  HasRun-cons (err _) name names sql schema' schema e (n, less, inr h) =
      (suc n, omega arith, inr (rw (e, h, append_assoc) refl))

  -- What the database does not accept fails and is not run, however the call ends.
  executed-refused :
      (d : Delivery) (sql : String) (schema : Schema)
      → m.accepts schema sql ≡ false
      → executed m d sql schema ≡ (err tt, schema)
  executed-refused answered sql schema bad = rw bad refl
  executed-refused refused sql schema bad = refl
  executed-refused reply_lost sql schema bad = rw bad refl

  -- How a call ends: the script runs; it fails and does not run; or it runs and its answer is lost.
  abbrev Outcome : Delivery → String → Schema → Type 0
  Outcome d sql schema =
      (executed m d sql schema ≡ (ok tt, schema ++ sql ∷ []))
      ⊎ ((executed m d sql schema ≡ (err tt, schema))
          ⊎ (executed m d sql schema ≡ (err tt, schema ++ sql ∷ [])))

  executed-accepted :
      (d : Delivery) (sql : String) (schema : Schema)
      → m.accepts schema sql ≡ true
      → Outcome d sql schema
  executed-accepted answered sql schema good = inl (rw good refl)
  executed-accepted refused sql schema good = inr (inl refl)
  executed-accepted reply_lost sql schema good = inr (inr (rw good refl))

  executed-cases : (d : Delivery) (sql : String) (schema : Schema) → Outcome d sql schema
  executed-cases d sql schema = elim (Bool-cases (m.accepts schema sql)) [
    | inl good ↦ executed-accepted d sql schema good
    | inr bad ↦ inr (inl (executed-refused d sql schema bad))
  ]

  run_files-HasRun :
      (names : List String) (schema : Schema)
      → let (r, schema') = run_files m dir names schema in HasRun r names schema' schema
  unfolding run_files
  run_files-HasRun [] schema = sym (append-nil schema)
  run_files-HasRun (name ∷ names) schema = elim (Option-cases (m.read_file dir name)) [
    | inl gone ↦ rw gone (0, omega arith, inl (sym (append-nil schema)))
    | inr (content, found) ↦
        let sql : String = extract_goose_up content in
        elim (executed-cases (m.delivery schema sql) sql schema) [
          | inl good ↦
              let (r, schema') = run_files m dir names (schema ++ sql ∷ []) in
              let all : HasRun r (name ∷ names) schema' schema =
                HasRun-cons r name names sql schema' schema (rw found refl)
                  (run_files-HasRun names (schema ++ sql ∷ [])) in
              let step : run_files m dir (name ∷ names) schema
                  ≡ run_files m dir names (schema ++ sql ∷ []) =
                rw (found, good) refl in
              subst
                (λ (p : Result MigrationError (Unit {0}) × Schema).
                  HasRun p.0 (name ∷ names) p.1 schema)
                (sym step) all
          | inr (inl bad) ↦ rw (found, bad) (0, omega arith, inl (sym (append-nil schema)))
          | inr (inr lost) ↦ rw (found, lost) (0, omega arith, inr (rw found refl))
        ]
  ]

  -- What `RunMigrations` has run, if it succeeds, are the scripts of all files of the directory that
  -- end in `.sql`, in ascending order of their names; if it fails, those of the files before one
  -- of these files, and perhaps that one's, as where the answer of the database was lost.
  pub run_migrations-HasRun :
      (entries : List String) (schema : Schema)
      → m.read_dir dir ≡ some entries
      → let (r, schema') = run_migrations m dir schema in
        (names : List String) × Perm names (keep is_sql entries)
        × AreSorted names
        × HasRun r names schema' schema
  unfolding run_migrations
  run_migrations-HasRun entries schema listed =
      let names : List String = sort_names (keep is_sql entries) in
      rw listed (
        names,
        sort_names-perm (keep is_sql entries),
        sort_names-AreSorted (keep is_sql entries),
        run_files-HasRun names schema,
      )

  abbrev pub was_run : String → Schema → Bool
  was_run sql schema = any (λ s. str_eq s sql) schema

  was_run-append : (sql : String) (schema rest : Schema) → was_run sql (schema ++ sql ∷ rest) ≡ true
  was_run-append sql [] rest = ground (arith, eq_refl sql)
  was_run-append sql (s ∷ schema) rest = ground (arith, was_run-append sql schema rest)

  ok-HasRun :
      (r : Result MigrationError (Unit {0})) (names : List String) (schema' schema : Schema)
      → r ≡ ok tt
      → HasRun r names schema' schema
      → schema' ≡ schema ++ scripts names
  ok-HasRun (ok _) names schema' schema e h = h
  ok-HasRun (err _) names schema' schema e h = cc

  run_files_twice :
      (name : String) (names : List String) (schema : Schema)
      → ((schema : Schema) (sql : String)
          → was_run sql schema ≡ true
          → m.accepts schema sql ≡ false)
      → (run_files m dir (name ∷ names) schema).0 ≡ ok tt
      → let schema' = (run_files m dir (name ∷ names) schema).1 in
        run_files m dir (name ∷ names) schema' ≡ (err (migration_failed name), schema')
  unfolding run_files
  run_files_twice name names schema refuses done = elim (Option-cases (m.read_file dir name)) [
    | inl gone ↦ absurd (ground arith)
    | inr (content, found) ↦
        let sql : String = extract_goose_up content in
        let schema' : Schema = (run_files m dir (name ∷ names) schema).1 in
        let ran : schema' ≡ schema ++ scripts (name ∷ names) =
          ok-HasRun _ (name ∷ names) schema' schema done (run_files-HasRun (name ∷ names) schema) in
        let known : was_run sql schema' ≡ true =
          rw (ran, found) (was_run-append sql schema (scripts names)) in
        let again : (s : Schema)
            → m.accepts s sql ≡ false
            → run_files m dir (name ∷ names) s ≡ (err (migration_failed name), s) =
          λ s bad. rw (found, executed-refused (m.delivery s sql) sql s bad) refl in
        again schema' (refuses schema' sql known)
  ]

  -- If the database refuses a script that it has run before, as it does where a table exists, then
  -- after a run that succeeded, with at least one file, a second run fails at the first file and
  -- changes nothing.
  pub run_migrations_twice :
      (entries : List String) (name : String) (names : List String) (schema : Schema)
      → m.read_dir dir ≡ some entries
      → sort_names (keep is_sql entries) ≡ name ∷ names
      → ((schema : Schema) (sql : String)
          → was_run sql schema ≡ true
          → m.accepts schema sql ≡ false)
      → (run_migrations m dir schema).0 ≡ ok tt
      → let schema' = (run_migrations m dir schema).1 in
        run_migrations m dir schema' ≡ (err (migration_failed name), schema')
  unfolding run_migrations run_files
  run_migrations_twice entries name names schema listed sorted refuses done =
      rw (listed, sorted) (run_files_twice name names schema refuses (ground arith))
