-- ===== src/Json.antt =====
-- Normalised JSON, as `json.Unmarshal` gives it: the values that hook jobs get in their environment.
use openshift_upgrade_contro.Prelude.{String, Bool}

mutual
  pub data Json : Type 0 where
    null : Json
    bool : Bool → Json
    num : String → Json
    str : String → Json
    arr : Items → Json
    obj : Fields → Json

  pub data Items : Type 0 where
    nil : Items
    cons : Json → Items → Items

  pub data Fields : Type 0 where
    end : Fields
    field : String → Json → Fields → Fields
