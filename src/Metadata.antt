-- ===== src/Metadata.antt =====
-- The records of the metadata service (internal/metadata/types.go), with the fields that the modelled
-- code reads, and the JSON values that a network's metadata holds.
use network_plugin_manager.Prelude.{String, Bool, false, Option, some, List, [], ◌∷◌}
use network_plugin_manager.Go.Map.{Map, lookup}

-- `interface{}` as the JSON decoder fills it. Numbers and arrays are not looked into.
mutual
  pub data Json : Type 0 where
    null number array : Json
    bool : Bool → Json
    text : String → Json
    object : Fields → Json

  pub data Fields : Type 0 where
    end : Fields
    field : String → Json → Fields → Fields

abbrev pub entries : Fields → Map Json
entries end = []
entries (field k v fs) = (k, v) ∷ entries fs

-- `x, _ := v.(map[string]interface{})`; a missing key is the first argument `none`.
abbrev pub as_object : Option Json → Map Json
as_object (some (object fs)) = entries fs
as_object _ = []

abbrev pub as_text : Option Json → String
as_text (some (text s)) = s
as_text _ = ""

abbrev pub as_bool : Option Json → Bool
as_bool (some (bool b)) = b
as_bool _ = false

pub record Container : Type 0 where
  pub external_id : String
  pub host_uuid : String
  pub labels : Map String
  pub name : String
  pub network_uuid : String
  pub ports : List String
  pub primary_ip : String
  pub primary_mac_address : String
  pub service_name : String
  pub stack_name : String
  pub state : String
  pub system : Bool
  pub uuid : String

pub record Service : Type 0 where
  pub containers : List Container
  pub name : String
  pub stack_uuid : String

pub record Network : Type 0 where
  pub is_default : Bool
  pub host_ports : Bool
  pub metadata : Map Json
  pub name : String
  pub uuid : String

pub record Host : Type 0 where
  pub agent_ip : String
  pub labels : Map String
  pub state : String
  pub uuid : String

-- `network.Metadata["cniConfig"]` as an object
unfoldable pub cni_config : Network → Map Json
unfolding lookup
cni_config n = as_object (lookup "cniConfig" n.metadata)

-- What the service answers while one operation runs; `none` is an error.
pub record Client : Type 0 where
  pub containers : Option (List Container)
  pub hosts : Option (List Host)
  pub networks : Option (List Network)
  pub self_host : Option Host
  pub services : Option (List Service)
