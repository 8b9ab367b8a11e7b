-- ===== src/Api/Service/Rules.antt =====
-- What a computation may do to the two tables, with a rule for each way in which the handlers are
-- composed: users are only added, and documents are kept but for those that are exempt.
use pqc_api.Prelude.{
  ◌≡◌, sym, inl, inr, Bool, true, false, some, List, [], ◌∷◌, ◌++◌, if◌then◌else◌, arith, Bytes,
  refl,
}
use pqc_api.Prelude.Int.{ℤ}
use mathlib.Core.Path.{subst}
use pqc_api.Std.Outcome.{Outcome, returns, throws, json_error}
use pqc_api.Std.Decimal.{to_string}
use pqc_api.Std.Exec.{Exec, lift, continue, ◌>>=◌}
use pqc_api.External.Openssl.{Openssl}
use pqc_api.External.Json.{Json}
use pqc_api.External.Redis.{Redis}
use pqc_api.External.Postgres.{Postgres}
use pqc_api.Persistence.Users as Users
use pqc_api.Persistence.PostgreSqlClient.{execute, query}
use pqc_api.Persistence.Users.Table.{UserTable}
use pqc_api.Persistence.Users.Grown.{Grown, same, more, Grown-trans}
use pqc_api.Persistence.Documents as Documents
use pqc_api.Persistence.Documents.Table.{Stored, DocumentTable, with_id}
use pqc_api.Persistence.Shared.{SharedTables, SameTables}
use pqc_api.Auth.World.{World}
use pqc_api.Api.Service.Kept.{Kept}
use pqc_api.Api.Http.{catch_json, caught_json}

pub with_id-append_old :
    (id : ℤ) (ds : List Stored) (d x : Stored)
    → with_id id ds ≡ some d
    → with_id id (ds ++ x ∷ []) ≡ some d
with_id-append_old id [] d x h = cc
with_id-append_old id (y ∷ ds) d x h = ground (arith, with_id-append_old id ds d x)

module _ (D : Postgres) (T : UserTable D) (U : DocumentTable D) (Exempt : ℤ → Stored → Type 0) where
  pub record Safe (s t : D.State) : Type 0 where
    pub grown : Grown (T.users s) (T.users t)
    pub kept :
        (id : ℤ) (d : Stored)
        → ¬ Exempt id d
        → with_id id (U.documents s) ≡ some d
        → with_id id (U.documents t) ≡ some d

  pub Safe-refl : (s : D.State) → Safe s s
  Safe-refl s = record { grown = same; kept = λ id d e h. h }

  Safe-trans : {s t u : D.State} → Safe s t → Safe t u → Safe s u
  Safe-trans a b = record {
    grown = Grown-trans a.grown b.grown;
    kept = λ id d e h. b.kept id d e (a.kept id d e h);
  }

  pub Safe-same : (s t : D.State) → SameTables D T U s t → Safe s t
  Safe-same s t (users, documents) = record {
    grown = subst (Grown (T.users s)) (sym users) same;
    kept = λ id d e h. rw documents h;
  }

  module _ (R : Redis) where
    pub record Respects {A : Type 0} (m : Exec (World R D) A) : Type 0 where
      pub at : (w : World R D) → Safe w.db (m w).1.db

    pub Respects-unchanged :
        {A : Type 0} {m : Exec (World R D) A} → ((w : World R D) → (m w).1.db ≡ w.db) → Respects m
    Respects-unchanged h = record { at = λ w. rw (h w) (Safe-refl w.db) }

    continue-Safe :
        {A B : Type 0} (r : Outcome A) (f : A → Exec (World R D) B) (w w' : World R D)
        → Safe w.db w'.db
        → ((a : A) → Respects (f a))
        → Safe w.db (continue r f w').1.db
    continue-Safe (returns a) f w w' first rest = Safe-trans first ((rest a).at w')
    continue-Safe (throws e) f w w' first rest = first

    pub Respects-bind :
        {A B : Type 0} (m : Exec (World R D) A) (f : A → Exec (World R D) B)
        → Respects m
        → ((a : A) → Respects (f a))
        → Respects (m >>= f)
    Respects-bind m f first rest = record {
      at = λ w. continue-Safe (m w).0 f w (m w).1 (first.at w) rest;
    }

    pub Respects-if :
        {A : Type 0} (b : Bool) (m n : Exec (World R D) A)
        → Respects m
        → Respects n
        → Respects (if b then m else n)
    Respects-if true m n hm hn = hm
    Respects-if false m n hm hn = hn

    caught-Safe :
        {A : Type 0} (r : Outcome A) (handler : Exec (World R D) A) (w w' : World R D)
        → Safe w.db w'.db
        → Respects handler
        → Safe w.db (caught_json (r, w') handler).1.db
    caught-Safe (throws json_error) handler w w' first rest = Safe-trans first (rest.at w')
    caught-Safe r handler w w' first rest = first

    pub Respects-catch :
        {A : Type 0} (m handler : Exec (World R D) A)
        → Respects m
        → Respects handler
        → Respects (catch_json m handler)
    Respects-catch m handler first rest = record {
      at = λ w. caught-Safe (m w).0 handler w (m w).1 (first.at w) rest;
    }

module _ (D : Postgres) (T : UserTable D) (U : DocumentTable D) (Sh : SharedTables D T U)
    (Exempt : ℤ → Stored → Type 0) where
  open Sh use {reads, insert_user, insert_document}

  abbrev SafeStep : {A : Type 0} → (D.State → A × D.State) → Type 0
  SafeStep m = (s : D.State) → Safe D T U Exempt s (m s).1

  continue_read :
      {A B : Type 0} (r : Outcome A) (f : A → Outcome B) (s t : D.State)
      → Safe D T U Exempt s t
      → Safe D T U Exempt s (continue r (λ a. lift (f a)) t).1
  continue_read (returns a) f s t h = h
  continue_read (throws e) f s t h = h

  read_safe :
      {A : Type 0} (sql : Bytes) (params : List Bytes) (f : List D.Row → Outcome A)
      → ((s : D.State) → SameTables D T U s (query D sql params s).1)
      → SafeStep (query D sql params >>= λ rows. lift (f rows))
  read_safe sql params f h s =
      continue_read (query D sql params s).0 f s (query D sql params s).1
        (Safe-same D T U Exempt s (query D sql params s).1 (h s))

  pub find_user_by_id-Safe : (id : ℤ) → SafeStep (Users.find_by_id D id)
  unfolding Users.find_by_id
  find_user_by_id-Safe id = read_safe _ _ (Users.first_user D) (reads.0 _)

  pub find_by_username-Safe : (name : Bytes) → SafeStep (Users.find_by_username D name)
  unfolding Users.find_by_username
  find_by_username-Safe name = read_safe _ _ (Users.first_user D) (reads.1.0 _)

  pub find_by_id-Safe : (id : ℤ) → SafeStep (Documents.find_by_id D id)
  unfolding Documents.find_by_id
  find_by_id-Safe id = read_safe _ _ (Documents.first_document D) (reads.1.1.0 _)

  pub find_by_user_id-Safe : (user_id : ℤ) → SafeStep (Documents.find_by_user_id D user_id)
  unfolding Documents.find_by_user_id
  find_by_user_id-Safe user_id = read_safe _ _ (Documents.all_documents D) (reads.1.1.1.0 _)

  pub get_pdf_data-Safe : (id : ℤ) → SafeStep (Documents.get_pdf_data D id)
  unfolding Documents.get_pdf_data
  get_pdf_data-Safe id = read_safe _ _ (Documents.first_pdf_data D) (reads.1.1.1.1.0 _)

  pub owned_by-Safe : (id user_id : ℤ) → SafeStep (Documents.owned_by D id user_id)
  unfolding Documents.owned_by
  owned_by-Safe id user_id =
      read_safe _ _ (λ rows. returns (Documents.has_rows rows)) (reads.1.1.1.1.1.0 _)

  pub save_user-Safe : (name hash : Bytes) → SafeStep (Users.save D name hash)
  unfolding Users.save execute
  save_user-Safe name hash s =
      let (documents, users) = insert_user name hash s in
      record {
        grown = elim users [
          | inl unchanged ↦ subst (Grown (T.users s)) (sym unchanged) same
          | inr (row, adds) ↦ more row same adds
        ];
        kept = λ id d e h. rw documents h;
      }

  pub save_document-Safe :
      (user_id : ℤ) (filename pdf signature sha256 : Bytes)
      → SafeStep (Documents.save D user_id filename pdf signature sha256)
  unfolding Documents.save
  save_document-Safe user_id filename pdf signature sha256 s =
      let (users, documents) =
        insert_document (to_string user_id) filename pdf signature sha256 s in
      record {
        grown = subst (Grown (T.users s)) (sym users) same;
        kept = λ id d e h. elim documents [
          | inl unchanged ↦ rw unchanged h
          | inr (row, added, fresh) ↦ rw added (with_id-append_old id (U.documents s) d row h)
        ];
      }

  abbrev pub tables-Kept :
      (O : Openssl) (J : Json) (R : Redis) (secret_key : Bytes) → Kept O J R D secret_key
  tables-Kept O J R secret_key = record {
    Keeps = Respects D T U Exempt R;
    lifts = λ r. Respects-unchanged D T U Exempt R (λ w. refl);
    binds = Respects-bind D T U Exempt R;
    ifs = Respects-if D T U Exempt R;
    catches = Respects-catch D T U Exempt R;
    user_by_id = λ id. record { at = λ w. find_user_by_id-Safe id w.db };
    user_by_name = λ name. record { at = λ w. find_by_username-Safe name w.db };
    user_saved = λ name hash. record { at = λ w. save_user-Safe name hash w.db };
    document_by_id = λ id. record { at = λ w. find_by_id-Safe id w.db };
    documents_by_user = λ user_id. record { at = λ w. find_by_user_id-Safe user_id w.db };
    pdf_by_id = λ id. record { at = λ w. get_pdf_data-Safe id w.db };
    ownership = λ id user_id. record { at = λ w. owned_by-Safe id user_id w.db };
    document_saved = λ user_id filename pdf signature sha256. record {
      at = λ w. save_document-Safe user_id filename pdf signature sha256 w.db;
    };
    token_read = λ now req. Respects-unchanged D T U Exempt R (λ w. refl);
    token_verified = λ now token. Respects-unchanged D T U Exempt R (λ w. refl);
  }
