-- ===== src/Stratum/JsonTrees.antt =====
-- Trees of JSON, with the accesses that the client makes of jsoncpp.
use quai_gpu_miner_archive.Stratum.{Json, Text}
use quai_gpu_miner_archive.Stratum.Texts.{same_text}
use quai_gpu_miner_archive.Prelude.{
  ℕ, Bool, true, false, not, Option, none, some, List, [], ◌∷◌, if◌then◌else◌,
}

mutual
  pub data Tree : Type 0 where
    null_tree : Tree
    flag : Bool → Tree
    number : ℕ → Tree
    text : Text → Tree
    array : Trees → Tree
    object : Fields → Tree

  pub data Trees : Type 0 where
    no_trees : Trees
    tree_and : Tree → Trees → Trees

  pub data Fields : Type 0 where
    no_fields : Fields
    field_and : Text → Tree → Fields → Fields

unfoldable pub to_list : Trees → List Tree
to_list no_trees = []
to_list (tree_and t ts) = t ∷ to_list ts

unfoldable pub to_members : Fields → List (Text × Tree)
to_members no_fields = []
to_members (field_and key t ts) = (key, t) ∷ to_members ts

unfoldable pub find : Fields → Text → Option Tree
find no_fields key = none
find (field_and name t ts) key = if same_text name key then some t else find ts key

abbrev is_container : Tree → Bool
is_container (array ts) = true
is_container (object ts) = true
is_container _ = false

unfoldable pub tree_json : Json Tree
unfolding to_list to_members find
tree_json = record {
  null = null_tree;
  object = λ t. elim t [ object ts ↦ some (find ts) | null_tree ↦ some (λ key. none) | _ ↦ none ];
  members = λ t. elim t [ object ts ↦ to_members ts | _ ↦ [] ];
  elements = λ t. elim t [ array ts ↦ to_list ts | _ ↦ [] ];
  is_null = λ t. elim t [ null_tree ↦ true | _ ↦ false ];
  is_array = λ t. elim t [ array ts ↦ true | _ ↦ false ];
  is_object = λ t. elim t [ object ts ↦ true | _ ↦ false ];
  is_string = λ t. elim t [ text s ↦ true | _ ↦ false ];
  is_bool = λ t. elim t [ flag b ↦ true | _ ↦ false ];
  is_empty = λ t. elim t [
    | null_tree ↦ true
    | array ts ↦ elim ts [ no_trees ↦ true | tree_and t ts ↦ false ]
    | object ts ↦ elim ts [ no_fields ↦ true | field_and key t ts ↦ false ]
    | _ ↦ false
  ];
  converts_to_string = λ t. not (is_container t);
  converts_to_array = λ t. elim t [ array ts ↦ true | null_tree ↦ true | _ ↦ false ];
  converts_to_object = λ t. elim t [ object ts ↦ true | null_tree ↦ true | _ ↦ false ];
  converts_to_bool = λ t. elim t [ flag b ↦ true | number n ↦ true | null_tree ↦ true | _ ↦ false ];
  as_string = λ t. elim t [ text s ↦ some s | null_tree ↦ some [] | _ ↦ none ];
  as_uint = λ t. elim t [ number n ↦ some n | null_tree ↦ some 0 | _ ↦ none ];
  as_bool = λ t. elim t [ flag b ↦ some b | null_tree ↦ some false | _ ↦ none ];
}
