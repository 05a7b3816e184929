-- ===== src/Pii/Pack.antt =====
-- entity_pack.py: the entities of a pack, from the document of its file. `regex.compile` with
-- `finditer` is a parameter, and so is Python's `float`. A label, a pattern, a validator or an id that
-- is no text is an error here.
use guard_x.Common.{ℕ, false, String, List, [], ◌∷◌, lookup}
use guard_x.Common.Float.{Float, finite}
use guard_x.Common.Int.{pos}
use guard_x.Common.Json.{Json, str, bool, arr, nil, float, truthy}
use guard_x.Common.Result.{Result, ok, err, attribute_error, file_not_found, or_raise, ◌>>=◌}
use guard_x.Common.Text.{lower}
use guard_x.Platform.{Platform}
use guard_x.Linter.Document.{as_text, get_default, get_key, iterate, text_of}
use guard_x.Pii.Detector.{Entity, EntityPack}

-- `w.lower()`
abbrev pub lower_json : Json → Result String
lower_json (str s) = ok (lower s)
lower_json _ = err attribute_error

unfoldable pub each : {X Y : Type 0} → (X → Result Y) → List X → Result (List Y)
each f [] = ok []
each f (x ∷ xs) = f x >>= λ y. each f xs >>= λ ys. ok (y ∷ ys)

module _ (py : Platform) (compile_regex : String → Result (String → List (ℕ × ℕ)))
    (float_of : Json → Result Float) where
  -- `_compile_entity`
  unfoldable pub compile_entity : Json → Result Entity
  unfolding each lower
  compile_entity raw = get_key "label" raw >>= as_text >>= λ label.
      get_key "regex" raw >>= as_text >>= compile_regex >>= λ find_all.
      get_default "context_words" (arr nil) raw >>= iterate >>= each lower_json >>= λ words.
      get_default "base_confidence" (float (finite (pos 1) 1)) raw >>= float_of >>= λ base.
      get_default "validators" (arr nil) raw >>= iterate >>= each as_text >>= λ validators.
      get_default "requires_context" (bool false) raw >>= λ requires. ok (record {
        label = label;
        find_all = find_all;
        context_words = words;
        base_confidence = base;
        validators = validators;
        requires_context = truthy requires;
      })

  -- `load_pack`, over the parsed files of the directory.
  unfoldable pub load_entity_pack : List (String × Json) → String → Result EntityPack
  unfolding compile_entity each text_of
  load_entity_pack files spec = or_raise (lookup spec files) file_not_found >>= λ doc.
      get_default "entities" (arr nil) doc >>= iterate >>= each compile_entity >>= λ entities.
      get_key "id" doc >>= as_text >>= λ pack_id.
      get_default "version" (str "0.0.0") doc >>= λ version.
      ok (record { pack_id = pack_id; version = text_of py version; entities = entities })
