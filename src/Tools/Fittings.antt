-- ===== src/Tools/Fittings.antt =====
-- internal/usecase/eve/writes_fittings.go: saving and deleting a fitting.
use eve_online_mcp.Prelude.{
  ℕ, String, Bool, Option, none, some, List, [], ◌∷◌, ◌++◌ as join_lists, map, if◌then◌else◌, ◌==◌,
  str_eq, find?, trim_space,
}
use eve_online_mcp.Domain.{CharacterToken}
use eve_online_mcp.Store.{Result}
use eve_online_mcp.Write.Policy.{cap_fittings}
use eve_online_mcp.Write.Summary.{Args, Value, itoa, ◌++◌}
use eve_online_mcp.Esi.Lookup.{Resolutions, fold, resolved}
use eve_online_mcp.Tools.{
  Net, T, Answer, Method, Body, Fitting, t_pure, read, ◌>>=◌, authz, my_character, carry_out, owned,
}
use eve_online_mcp.Tools.Texts.{slice_of, clip, unresolved_result}
use eve_online_mcp.Tools.Pick.{Resolved, look_up}

pub record FittingModule : Type 0 where
  pub name : String
  pub flag : String
  pub quantity : ℕ

pub record FittingSaveIn : Type 0 where
  pub name : String
  pub ship : String
  pub modules : List FittingModule
  pub description : String
  pub confirm_token : String

pub record FittingDeleteIn : Type 0 where
  pub fitting_id : ℕ
  pub confirm_token : String

abbrev pub fitting_name_max : ℕ
fitting_name_max = 50

abbrev pub fitting_desc_max : ℕ
fitting_desc_max = 500

pub record FittingItem : Type 0 where
  pub type_id : ℕ
  pub flag : String
  pub quantity : ℕ

-- fittingResolved, less its refusal.
pub record FittingResolved : Type 0 where
  pub ship_id : ℕ
  pub items : List FittingItem
  pub preview_mods : List String

-- The loop over the modules, with the names that are not known.
pub record Loaded : Type 0 where
  pub items : List FittingItem
  pub preview_mods : List String
  pub unknown : List String

abbrev pub nothing_loaded : Loaded
nothing_loaded = record { items = []; preview_mods = []; unknown = [] }

unfoldable pub item_text : FittingItem → String
unfolding itoa
item_text i =
    "map[flag:" ++ i.flag ++ " quantity:" ++ itoa i.quantity ++ " type_id:" ++ itoa i.type_id ++ "]"

abbrev pub item_of : ℕ → FittingModule → FittingItem
item_of type_id m = record {
  type_id = type_id;
  flag = if str_eq m.flag "" then "Cargo" else m.flag;
  quantity = if m.quantity == 0 then 1 else m.quantity;
}

unfoldable pub module_text : FittingModule → String
unfolding trim_space itoa
module_text m =
    let i = item_of 0 m in trim_space m.name ++ " x" ++ itoa i.quantity ++ " [" ++ i.flag ++ "]"

module _ (lower : String → String) (resolutions : Resolutions) where
  -- `byName[...]`, 0 for a name that has no match.
  unfoldable pub type_of : String → ℕ
  unfolding fold resolved
  type_of name = elim (resolved lower resolutions (fold lower name)).chosen [
    | none ↦ 0
    | some m ↦ m.id
  ]

  unfoldable pub load_one : FittingModule → Loaded → Loaded
  unfolding type_of trim_space module_text
  load_one m l =
      if type_of m.name == 0
      then record l { unknown = join_lists l.unknown (trim_space m.name ∷ []) }
      else record l {
        items = join_lists l.items (item_of (type_of m.name) m ∷ []);
        preview_mods = join_lists l.preview_mods (module_text m ∷ []);
      }

  unfoldable pub load_modules : List FittingModule → Loaded → Loaded
  unfolding load_one
  load_modules [] l = l
  load_modules (m ∷ modules) l = load_modules modules (load_one m l)

  unfoldable pub judge_loaded : ℕ → Loaded → Resolved FittingResolved
  unfolding unresolved_result
  judge_loaded ship_id l = elim l.unknown [
    | [] ↦
        Resolved.found
          (record { ship_id = ship_id; items = l.items; preview_mods = l.preview_mods })
    | n ∷ names ↦ Resolved.refused (unresolved_result (n ∷ names))
  ]

  unfoldable pub judge_modules : String → List FittingModule → Resolved FittingResolved
  unfolding type_of load_modules judge_loaded unresolved_result
  judge_modules ship modules =
      if type_of ship == 0
      then Resolved.refused (unresolved_result (ship ∷ []))
      else judge_loaded (type_of ship) (load_modules modules nothing_loaded)

unfoldable pub fitting_fields : FittingSaveIn → FittingResolved → Args
unfolding clip slice_of item_text
fitting_fields in_ r =
    ("name", Value.text (clip fitting_name_max in_.name))
    ∷ ("description", Value.text (clip fitting_desc_max in_.description))
    ∷ ("ship_type_id", Value.int r.ship_id)
    ∷ ("items", slice_of (map item_text r.items))
    ∷ []

abbrev pub has_fitting_id : ℕ → Fitting → Bool
has_fitting_id id f = f.fitting_id == id

module _ (net : Net) where
  unfoldable pub resolve_fitting_modules :
      String → List FittingModule → T (Resolved FittingResolved)
  unfolding judge_modules
  resolve_fitting_modules ship modules =
      look_up net (ship ∷ map (λ (m : FittingModule). m.name) modules) [] ("inventory_types" ∷ [])
      >>= λ resolutions. t_pure (judge_modules net.lower resolutions ship modules)

  module _ (digest : Args → Result String) (fresh : String) where
    unfoldable pub save_resolved :
        FittingSaveIn → CharacterToken → Resolved FittingResolved → T Answer
    unfolding carry_out fitting_fields clip slice_of itoa
    save_resolved in_ token (Resolved.refused answer) = t_pure (Answer.result answer)
    save_resolved in_ token (Resolved.found r) =
        carry_out net digest fresh
          (authz "eve_fitting_save" cap_fittings (owned token (fitting_fields in_ r))
            (("action", Value.text "Save a new fitting to the in-game fitting list")
              ∷ ("character", Value.text token.character_name)
              ∷ ("fitting_name", Value.text (clip fitting_name_max in_.name))
              ∷ ("hull", Value.text in_.ship)
              ∷ ("modules", slice_of r.preview_mods)
              ∷ [])
            in_.confirm_token token)
          (record {
            method = Method.post;
            path = "characters" ∷ itoa token.character_id ∷ "fittings" ∷ [];
            character_id = token.character_id;
            params = [];
            body = Body.fields (fitting_fields in_ r);
          })
          (λ v.
            ("status", Value.text "done")
            ∷ ("fitting_id", net.fitting_id_of v)
            ∷ ("name", Value.text (clip fitting_name_max in_.name))
            ∷ [])

    unfoldable pub eve_fitting_save : FittingSaveIn → T Answer
    unfolding my_character save_resolved resolve_fitting_modules
    eve_fitting_save in_ = my_character >>= λ token.
        resolve_fitting_modules in_.ship in_.modules >>= λ r. save_resolved in_ token r

    unfoldable pub delete_found : FittingDeleteIn → CharacterToken → Option Fitting → T Answer
    unfolding carry_out itoa
    delete_found in_ token none = t_pure (
        Answer.result (
          ("error", Value.text "No fitting with that id. Call eve_fitting_list.")
          ∷ ("kind", Value.text "Error")
          ∷ ("fitting_id", Value.int in_.fitting_id)
          ∷ []))
    delete_found in_ token (some f) =
        carry_out net digest fresh
          (authz "eve_fitting_delete" cap_fittings
            (owned token (("fitting_id", Value.int in_.fitting_id) ∷ []))
            (("action", Value.text "Permanently delete a saved fitting")
              ∷ ("character", Value.text token.character_name)
              ∷ ("fitting_name", f.name)
              ∷ ("modules", Value.int f.items)
              ∷ [])
            in_.confirm_token token)
          (record {
            method = Method.delete;
            path = "characters" ∷ itoa token.character_id ∷ "fittings" ∷ itoa in_.fitting_id ∷ [];
            character_id = token.character_id;
            params = [];
            body = Body.empty;
          })
          (λ v. ("status", Value.text "done") ∷ ("deleted", f.name) ∷ [])

    unfoldable pub eve_fitting_delete : FittingDeleteIn → T Answer
    unfolding my_character delete_found
    eve_fitting_delete in_ = my_character >>= λ token.
        read (net.fittings token.character_id) >>= λ existing.
        delete_found in_ token (find? (has_fitting_id in_.fitting_id) existing)
