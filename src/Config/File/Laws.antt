-- ===== src/Config/File/Laws.antt =====
-- pkg/config/config.go and cmd/eli/configSetCommand.go: what a change of the configuration leaves.
use eliot.Prelude.{Bytes, [], ◌∷◌, ok, ◌≡◌, sym, ap, ◌∙◌, bind-ok, ◌>>=◌}
use eliot.Config.{Config, default_config}
use eliot.Config.Field.{set_field}
use eliot.Cmd.Ui.{Output}
use eliot.Config.File.{
  set_read, Files, Yaml, Keeps, Decodes, get_config, config_set, or_fatal, read_over, written,
}

module _ (files : Files) (keeps : Keeps files) where
  -- What was written is read.
  written-read_over :
      {A : Type 0} (yaml : Yaml A) (s s' : files.State) (path : Bytes) (a b : A)
      → Decodes yaml
      → written files yaml s path a ≡ ok s'
      → read_over files yaml s' path b ≡ ok a
  written-read_over yaml s s' path a b d e =
      let (text, m, w) = bind-ok (yaml.marshal a) (λ text. files.write s path text) s' e in
      rw (keeps.there s s' path text w, keeps.same s s' path text w) (d.back a b text m)

  -- Where the files keep what is written and the YAML library decodes what it encoded: if
  -- `eli config set` of a name and a value succeeds, the configuration that is read behind it is the
  -- one that was read before it with the field of this name set.
  pub config_set-get_config :
      (yaml : Yaml Config) (output : Output) (s s' : files.State) (path name value : Bytes)
      (before after : Config)
      → Decodes yaml
      → get_config files yaml s path ≡ ok before
      → set_field before name value ≡ ok after
      → config_set files yaml output s path (name ∷ value ∷ []) ≡ ok s'
      → get_config files yaml s' path ≡ ok after
  unfolding config_set get_config
  config_set-get_config yaml output s s' path name value before after d g f e =
      let wrote =
        sym (
          ap (λ r. set_read files yaml s path name value (or_fatal files output r)) g
          ∙ ap (λ r. r >>= written files yaml s path) f)
        ∙ e in
      written-read_over yaml s s' path after default_config d wrote
