-- ===== src/Config/Files.antt =====
-- The file of the configuration: `Load` and `Save` of internal/config/config.go. What the operating
-- system, path/filepath and the YAML package do is an argument.
use uruflow.Prelude.{◌++◌, Option, none, some, Text, bytes, ◌⊎◌, inl, inr}
use uruflow.Config.{Config, set_defaults}

-- The files of the machine `D`, and the text of an error where a call fails.
pub record FileSystem (D : Type 0) : Type 0 where
  pub dir : Text → Text
  pub make_dirs : D → Text → D × Option Text
  pub write_file : D → Text → Text → D × Option Text
  pub read_file : D → Text → Text ⊎ Text
  pub marshal : Config → Text ⊎ Text
  pub unmarshal : Text → Config ⊎ Text

abbrev parsed : Config ⊎ Text → Config ⊎ Text
parsed (inr e) = inr (bytes "parse config: " ++ e)
parsed (inl c) = inl (set_defaults c)

abbrev read : (Text → Config ⊎ Text) → Text ⊎ Text → Config ⊎ Text
read unmarshal (inr e) = inr (bytes "read config: " ++ e)
read unmarshal (inl text) = parsed (unmarshal text)

-- `Load`: the configuration, or the text of the error.
unfoldable pub load : {D : Type 0} → FileSystem D → D → Text → Config ⊎ Text
load fs disk path = read fs.unmarshal (fs.read_file disk path)

abbrev pub wrapped : {D : Type 0} → Text → D × Option Text → D × Option Text
wrapped what (disk, none) = (disk, none)
wrapped what (disk, some e) = (disk, some (what ++ e))

abbrev pub write_marshalled : {D : Type 0} → FileSystem D → D → Text → Text ⊎ Text → D × Option Text
write_marshalled fs disk path (inr e) = (disk, some (bytes "marshal config: " ++ e))
write_marshalled fs disk path (inl text) =
    wrapped (bytes "write config: ") (fs.write_file disk path text)

abbrev pub in_dir : {D : Type 0} → FileSystem D → Text → Config → D × Option Text → D × Option Text
in_dir fs path c (disk, some e) = (disk, some (bytes "create config dir: " ++ e))
in_dir fs path c (disk, none) = write_marshalled fs disk path (fs.marshal c)

-- `Save`: the text of the error, where there is one.
unfoldable pub save : {D : Type 0} → FileSystem D → D → Text → Config → D × Option Text
save fs disk path c = in_dir fs path c (fs.make_dirs disk (fs.dir path))
