-- ===== src/Database/Migrations.antt =====
-- internal/db/migrations.go: which files are executed, and in which order.
use Prim.Native.String.{◌++◌ as str_append}
use text.Mathlib.Text.{starts_with}
use nimbus_run_a_self_hosted.Prelude.{
  String, ◌≡◌, refl, sym, ap, ◌∙◌, inl, inr, Bool, not, ◌&&◌, List, [], ◌∷◌, ◌++◌, map, select,
  arith, str_eq, Bool-cases,
}
use nimbus_run_a_self_hosted.Prelude.Exec.{ok, Result-cases}
use nimbus_run_a_self_hosted.Database.{
  DirEntry, Server, migrate, run_entry, run_entries, run_migrations,
}

abbrev pub is_migration : DirEntry → Bool
is_migration entry =
    not entry.is_dir && not (str_eq entry.name "") && not (starts_with entry.name ".")

append_nil : {A : Type 0} (xs : List A) → xs ++ [] ≡ xs
append_nil [] = refl
append_nil (x ∷ xs) = ap (λ ys. x ∷ ys) (append_nil xs)

append_assoc : {A : Type 0} (xs ys zs : List A) → (xs ++ ys) ++ zs ≡ xs ++ (ys ++ zs)
append_assoc [] ys zs = refl
append_assoc (x ∷ xs) ys zs = ap (λ rest. x ∷ rest) (append_assoc xs ys zs)

module _ (v : Server) where
  -- The texts that were executed on a pool, in their order.
  pub record IsServer (executed : v.State → List String) : Type 0 where
    pub read_keeps : (path : String) (s : v.State) → executed (v.read_file path s).1 ≡ executed s
    pub exec_ok :
        (sql : String) (pool : v.Pool) (s : v.State)
        → (v.exec sql pool s).0 ≡ ok tt
        → executed (v.exec sql pool s).1 ≡ executed s ++ sql ∷ []

  -- Texts that are those of the files, read one after the other while they are executed.
  pub data Executed (pool : v.Pool) (dir : String)
      : List String → v.State → v.State → List String → Type 0 where
    done : (s : v.State) → Executed pool dir [] s s []
    next :
        (name : String) (names : List String) (s s' : v.State) (sql : String) (texts : List String)
        → (v.read_file (str_append dir (str_append "/" name)) s).0 ≡ ok sql
        → Executed pool dir names
            (v.exec sql pool (v.read_file (str_append dir (str_append "/" name)) s).1).1
            s'
            texts
        → Executed pool dir (name ∷ names) s s' (sql ∷ texts)

  module _ (executed : v.State → List String) (laws : IsServer executed) (pool : v.Pool)
      (dir : String) where
    abbrev Migrated : List DirEntry → v.State → Type 0
    Migrated entries s =
        (texts : List String) × Executed pool dir
          (map (λ entry. entry.name) (select is_migration entries)) s
          (run_entries v pool dir entries s).1 texts
        × (executed (run_entries v pool dir entries s).1 ≡ executed s ++ texts)

    migrated :
        (entries : List DirEntry) (s : v.State)
        → (run_entries v pool dir entries s).0 ≡ ok tt
        → Migrated entries s
    unfolding run_entries run_entry migrate
    migrated [] s e = ([], done s, sym (append_nil (executed s)))
    migrated (entry ∷ rest) s e = elim (Bool-cases entry.is_dir) [
      | inl folder ↦
          let (texts, run, now) = migrated rest s (rw folder at e) in
          (texts, rw folder run, rw folder now)
      | inr file ↦ elim (Bool-cases (str_eq entry.name "")) [
        | inl empty ↦ absurd (ground (arith, rw (file, empty) at e))
        | inr named ↦ elim (Bool-cases (starts_with entry.name ".")) [
          | inl hidden ↦
              let (texts, run, now) = migrated rest s (rw (file, named, hidden) at e) in
              (texts, rw (file, named, hidden) run, rw (file, named, hidden) now)
          | inr shown ↦
              let path = str_append dir (str_append "/" entry.name) in
              elim (Result-cases (v.read_file path s).0) [
                | inr (cause, r) ↦ absurd (ground (arith, rw (file, named, shown, r) at e))
                | inl (sql, r) ↦
                    let s1 = (v.read_file path s).1 in
                    elim (Result-cases (v.exec sql pool s1).0) [
                      | inr (cause, x) ↦ absurd (ground (arith, rw (file, named, shown, r, x) at e))
                      | inl (_, x) ↦
                          let (texts, run, now) =
                            migrated rest (v.exec sql pool s1).1
                              (rw (file, named, shown, r, x) at e) in
                          (
                            sql ∷ texts,
                            rw (file, named, shown, r, x) (next entry.name _ s _ sql texts r run),
                            rw (file, named, shown, r, x)
                                (now
                                  ∙ ap (λ before. before ++ texts)
                                      (laws.exec_ok sql pool s1 x
                                        ∙ ap (λ before. before ++ sql ∷ [])
                                            (laws.read_keeps path s))
                                  ∙ append_assoc (executed s) (sql ∷ []) texts),
                          )
                    ]
              ]
        ]
      ]
    ]

    -- If `RunMigrations` succeeds, then it has executed the texts of exactly those entries of the
    -- directory that are no directories and have a name that does not begin with a dot, in the order
    -- in which the directory lists them.
    pub run_migrations_lem :
        (s : v.State) (entries : List DirEntry)
        → (v.read_dir dir s).0 ≡ ok entries
        → (run_migrations v pool dir s).0 ≡ ok tt
        → (texts : List String) × Executed pool dir
            (map (λ entry. entry.name) (select is_migration entries))
            (v.read_dir dir s).1
            (run_migrations v pool dir s).1
            texts
          × (executed (run_migrations v pool dir s).1 ≡ executed (v.read_dir dir s).1 ++ texts)
    unfolding run_migrations
    run_migrations_lem s entries listed e =
        let (texts, run, now) = migrated entries (v.read_dir dir s).1 (rw listed at e) in
        (texts, rw listed run, rw listed now)
