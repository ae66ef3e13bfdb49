-- ===== src/Config/Saving.antt =====
-- What is saved is what is loaded: internal/config/config.go.
use uruflow.Prelude.Int.{ℤ, pos, negsuc}
use uruflow.Prelude.{
  ◌≢◌, ℕ, zero, suc, [], ◌∷◌, Option, none, some, Text, bytes, ◌⊎◌, inl, inr, ◌≡◌, refl,
}
use uruflow.Config.{Config, set_defaults, or_text, or_port}
use uruflow.Config.Files.{FileSystem, load, save, wrapped, write_marshalled, in_dir}

-- A file that was written without an error reads as what was written.
unfoldable pub ReadsBack : {D : Type 0} → FileSystem D → Type 0
ReadsBack {D} fs =
    (disk : D) (path text : Text)
    → (fs.write_file disk path text).1 ≡ none
    → fs.read_file (fs.write_file disk path text).0 path ≡ inl text

-- YAML gives back the configuration whose text it is.
unfoldable pub ParsesBack : {D : Type 0} → FileSystem D → Config → Type 0
ParsesBack fs c = (text : Text) → fs.marshal c ≡ inl text → fs.unmarshal text ≡ inl c

wrapped_ok :
    {D : Type 0} (what : Text) (r : D × Option Text)
    → (wrapped what r).1 ≡ none
    → (r.1 ≡ none) × ((wrapped what r).0 ≡ r.0)
wrapped_ok what (disk, none) ok = (refl, refl)
wrapped_ok what (disk, some e) ok = cc

module _ {D : Type 0} (fs : FileSystem D) (path : Text) where
  -- What a file that is saved without an error holds.
  IsSaved : Config → D → Type 0
  IsSaved c disk = (text : Text) × (fs.marshal c ≡ inl text) × (fs.read_file disk path ≡ inl text)

  write-IsSaved :
      ReadsBack fs
      → (c : Config) (disk : D) (r : Text ⊎ Text) → fs.marshal c ≡ r
      → (write_marshalled fs disk path r).1 ≡ none
      → IsSaved c (write_marshalled fs disk path r).0
  unfolding ReadsBack IsSaved
  write-IsSaved back c disk (inr e) _ ok = cc
  write-IsSaved back c disk (inl text) same ok =
      let (written, there) =
        wrapped_ok (bytes "write config: ") (fs.write_file disk path text) ok in
      (text, same, rw there (back disk path text written))

  dir-IsSaved :
      ReadsBack fs
      → (c : Config) (made : D × Option Text) → (in_dir fs path c made).1 ≡ none
      → IsSaved c (in_dir fs path c made).0
  dir-IsSaved back c (disk, some e) ok = cc
  dir-IsSaved back c (disk, none) ok = write-IsSaved back c disk (fs.marshal c) refl ok

  load_saved :
      (c : Config) (disk : D)
      → ParsesBack fs c
      → IsSaved c disk
      → load fs disk path ≡ inl (set_defaults c)
  unfolding load IsSaved ParsesBack
  load_saved c disk parses (text, printed, there) = rw (there, parses text printed)

-- A text, or a default where it is empty.
abbrev pub KeptText : Text → Text → Text → Type 0
KeptText default t kept = (t ≡ []) × (kept ≡ default) ⊎ (t ≢ []) × (kept ≡ t)

abbrev pub KeptPort : ℕ → ℤ → ℤ → Type 0
KeptPort default p kept = (p ≡ pos 0) × (kept ≡ pos default) ⊎ (p ≢ pos 0) × (kept ≡ p)

-- Ports that are not 0 and texts that are not empty are kept, and so is everything else.
abbrev pub Filled : Config → Config → Type 0
Filled c filled =
    KeptPort 9000 c.server.http_port filled.server.http_port
    × KeptPort 9001 c.server.tcp_port filled.server.tcp_port
    × KeptText (bytes "0.0.0.0") c.server.host filled.server.host
    × KeptText (bytes "/var/lib/uruflow") c.server.data_dir filled.server.data_dir
    × KeptText (bytes "/webhook") c.webhook.path filled.webhook.path
    × (filled.webhook.secret ≡ c.webhook.secret)
    × (filled.tls ≡ c.tls)
    × (filled.agents ≡ c.agents)
    × (filled.repositories ≡ c.repositories)

or_text-KeptText : (default t : Text) → KeptText default t (or_text t default)
or_text-KeptText default [] = inl (refl, refl)
or_text-KeptText default (x ∷ t) = inr (λ e. cc, refl)

or_port-KeptPort : (default : ℕ) (p : ℤ) → KeptPort default p (or_port p default)
or_port-KeptPort default (pos zero) = inl (refl, refl)
or_port-KeptPort default (pos (suc n)) = inr (λ e. cc, refl)
or_port-KeptPort default (negsuc n) = inr (λ e. cc, refl)

set_defaults-Filled : (c : Config) → Filled c (set_defaults c)
unfolding set_defaults
set_defaults-Filled c = (
  or_port-KeptPort 9000 c.server.http_port,
  or_port-KeptPort 9001 c.server.tcp_port,
  or_text-KeptText (bytes "0.0.0.0") c.server.host,
  or_text-KeptText (bytes "/var/lib/uruflow") c.server.data_dir,
  or_text-KeptText (bytes "/webhook") c.webhook.path,
  refl,
  refl,
  refl,
  refl,
)

-- A configuration that is saved without an error is loaded from that path, where files and YAML give
-- back what was written: ports that are not 0 and a host, a data directory and a webhook path that
-- are not empty are loaded as they were saved, the others have their defaults, and everything else
-- is as it was saved.
pub load-save :
    {D : Type 0} (fs : FileSystem D) (disk : D) (path : Text) (c : Config)
    → ReadsBack fs
    → ParsesBack fs c
    → (save fs disk path c).1 ≡ none
    → (loaded : Config) × (load fs (save fs disk path c).0 path ≡ inl loaded) × Filled c loaded
unfolding save
load-save fs disk path c back parses ok = (
  set_defaults c,
  load_saved fs path c (save fs disk path c).0 parses
      (dir-IsSaved fs path back c (fs.make_dirs disk (fs.dir path)) ok),
  set_defaults-Filled c,
)
