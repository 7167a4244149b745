-- ===== src/Payloads.antt =====
-- src/tubedepth/payload_store.py: payloads addressed by their digests. A file is its place in the
-- layout and the payload that it holds; `digest_of` is the hash, and the compression is left out.
use Prim.Native.String.{len}
use text.Mathlib.TextPositions.{eq_refl}
use yt_scrapper.Base.{
  ℕ, String, Bool, true, ◌&&◌, Option, none, some, List, [], ◌∷◌, same, any, if◌then◌else◌, All,
  arith, ◌≡◌, eq_iff, inl, inr, Bool-cases,
}

pub record PayloadFile : Type 0 where
  pub kind : String
  pub digest : String
  pub payload : String

-- Its path is the place of its kind and its digest.
pub record StoredPayload : Type 0 where
  pub kind : String
  pub digest : String
  pub byte_count : ℕ

abbrev pub is_at : String → String → PayloadFile → Bool
is_at kind digest f = same f.kind kind && same f.digest digest

-- `path_for`, as far as whether there is one.
unfoldable pub has_path : String → String → List PayloadFile → Bool
has_path kind digest files = any (is_at kind digest) files

-- `path.write_bytes`
unfoldable pub write_file : PayloadFile → List PayloadFile → List PayloadFile
write_file f [] = f ∷ []
write_file f (g ∷ files) = if is_at f.kind f.digest g then f ∷ files else g ∷ write_file f files

-- `read`, whose search goes by the digest alone; `none` is the `FileNotFoundError`.
unfoldable pub read : String → List PayloadFile → Option String
read digest [] = none
read digest (f ∷ files) = if same f.digest digest then some f.payload else read digest files

module _ (digest_of : String → String) where
  unfoldable pub put : String → String → List PayloadFile → StoredPayload × List PayloadFile
  unfolding write_file
  put kind payload files =
      let digest = digest_of payload in
      (
        record { kind = kind; digest = digest; byte_count = len payload },
        write_file (record { kind = kind; digest = digest; payload = payload }) files,
      )

  -- Every file lies under the digest of what it holds.
  abbrev pub IsAddressed : List PayloadFile → Type 0
  IsAddressed files = All (λ f. f.digest ≡ digest_of f.payload) files

  pub write_file-IsAddressed :
      (f : PayloadFile) (files : List PayloadFile)
      → f.digest ≡ digest_of f.payload
      → IsAddressed files
      → IsAddressed (write_file f files)
  unfolding write_file
  write_file-IsAddressed f [] h hs = (h, tt)
  write_file-IsAddressed f (g ∷ files) h hs = elim (Bool-cases (is_at f.kind f.digest g)) [
    | inl e ↦ rw (e) (h, hs.1)
    | inr e ↦ rw (e) (hs.0, write_file-IsAddressed f files h hs.1)
  ]

pub has_path-write_file :
    (kind digest : String) (f : PayloadFile) (files : List PayloadFile)
    → has_path kind digest files ≡ true
    → has_path kind digest (write_file f files) ≡ true
unfolding has_path write_file
has_path-write_file kind digest f [] h = cc
has_path-write_file kind digest f (g ∷ files) h = ground (
  arith,
  eq_iff g.kind f.kind,
  eq_iff g.kind kind,
  eq_iff f.kind kind,
  eq_iff g.digest f.digest,
  eq_iff g.digest digest,
  eq_iff f.digest digest,
  has_path-write_file kind digest f files,
)

pub has_path-written :
    (f : PayloadFile) (files : List PayloadFile)
    → has_path f.kind f.digest (write_file f files) ≡ true
unfolding has_path write_file
has_path-written f [] = simp (eq_refl)
has_path-written f (g ∷ files) =
    ground (arith, eq_refl f.kind, eq_refl f.digest, has_path-written f files)

module _ (digest_of : String → String) (payload : String)
    (no_collision : (b : String) → digest_of b ≡ digest_of payload → b ≡ payload) where
  -- A payload that is written is what its digest reads, under whatever kind it is found.
  pub read-write_file :
      (kind : String) (files : List PayloadFile)
      → IsAddressed digest_of files
      → let f : PayloadFile = record {
        kind = kind;
        digest = digest_of payload;
        payload = payload;
      } in
        read (digest_of payload) (write_file f files) ≡ some payload
  unfolding read write_file
  read-write_file kind [] h = simp (eq_refl)
  read-write_file kind (g ∷ files) h = ground (
    arith,
    eq_refl (digest_of payload),
    eq_iff g.digest (digest_of payload),
    no_collision g.payload,
    h.0,
    read-write_file kind files h.1,
  )
