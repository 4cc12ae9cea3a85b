-- ===== src/Plugins.antt =====
-- packet_plugin/packet_plugin.c: the registered plugins, the ones that the user selects, and the
-- calls that walk through the selected ones in order.
pub mod Chain
use minieap.Prelude.{
  ℕ, suc, map, Bool, true, false, List, [], ◌∷◌, Option, none, some, if◌then◌else◌, Bytes, ◌==◌,
}
use minieap.Prelude.Maybe.{◌>>=◌}
use minieap.LinkedList.{insert_data, lookup_data, list_destroy}
use minieap.Frame.{EthEapFrame}

-- A hook that is `none` is a NULL pointer. `P` is the state behind the plugins' `priv` pointers; a
-- hook that looks at a frame says whether it succeeds, and `none` is a fault.
pub record PacketPlugin (P : Type 0) : Type 0 where
  pub name : Bytes
  pub destroy : Option (P → P)
  pub process_cmdline_opts : Option (List Bytes → P → P × Bool)
  pub process_config_file : Option (Bytes → P → P × Bool)
  pub save_config : Option (P → P)
  pub reset_session : Option (P → P)
  pub validate_params : Option (P → P × Bool)
  pub load_default_params : Option (P → P)
  pub set_auth_round : Option (ℕ → P → P)
  pub prepare_frame :
      Option (EthEapFrame → P → Option (record { ok : Bool; frame : EthEapFrame; priv : P }))
  pub on_frame_received : Option (EthEapFrame → P → Option (record { ok : Bool; priv : P }))

abbrev pub Prepared : Type 0 → Type 0
Prepared P = record { ok : Bool; frame : EthEapFrame; priv : P }

abbrev pub Received : Type 0 → Type 0
Received P = record { ok : Bool; priv : P }

-- `g_packet_plugin_list` and `g_active_packet_plugin_list`
pub record PluginLists (P : Type 0) : Type 0 where
  pub packet_plugin_list : List (PacketPlugin P)
  pub active_packet_plugin_list : List (PacketPlugin P)

-- Whether `strcmp` returns 0.
abbrev pub text_eq : Bytes → Bytes → Bool
text_eq [] [] = true
text_eq [] (y ∷ ys) = false
text_eq (x ∷ xs) [] = false
text_eq (x ∷ xs) (y ∷ ys) = let rest = text_eq xs ys in if x == y then rest else false

module _ {P : Type 0} where
  abbrev pub plugin_name_cmp : Bytes → PacketPlugin P → Bool
  plugin_name_cmp to_find curr = text_eq to_find curr.name

  unfoldable pub select_packet_plugin : Bytes → PluginLists P → PluginLists P × Bool
  unfolding lookup_data insert_data
  select_packet_plugin name lists =
      elim (lookup_data lists.packet_plugin_list name plugin_name_cmp) [
        | none ↦ (lists, false)
        | some info ↦ (
          record lists {
            active_packet_plugin_list = insert_data lists.active_packet_plugin_list info;
          },
          true,
        )
      ]

  -- `built` are the plugins that the build has switched on.
  unfoldable pub init_packet_plugin_list :
      (built : List (PacketPlugin P)) → PluginLists P → PluginLists P × ℕ
  unfolding insert_data
  init_packet_plugin_list [] lists = (lists, 0)
  init_packet_plugin_list (plugin ∷ built) lists =
      let r =
        init_packet_plugin_list built
          (record lists { packet_plugin_list = insert_data lists.packet_plugin_list plugin }) in
      (r.0, suc r.1)

  abbrev pub destroy_each : List (PacketPlugin P) → P → P
  destroy_each [] priv = priv
  destroy_each (plugin ∷ rest) priv =
      destroy_each rest (elim plugin.destroy [ none ↦ priv | some hook ↦ hook priv ])

  -- All registered plugins, not only those that are selected.
  unfoldable pub packet_plugin_destroy : PluginLists P → P → PluginLists P × P
  unfolding list_destroy
  packet_plugin_destroy lists priv = elim lists.packet_plugin_list [
    | [] ↦ (lists, priv)
    | plugin ∷ rest ↦ (
      record {
        packet_plugin_list = list_destroy lists.packet_plugin_list;
        active_packet_plugin_list = list_destroy lists.active_packet_plugin_list;
      },
      destroy_each (plugin ∷ rest) priv,
    )
  ]

  unfoldable pub packet_plugin_save_config : List (PacketPlugin P) → P → P
  packet_plugin_save_config [] priv = priv
  packet_plugin_save_config (plugin ∷ rest) priv =
      packet_plugin_save_config rest
        (elim plugin.save_config [ none ↦ priv | some hook ↦ hook priv ])

  -- A hook that is NULL succeeds.
  abbrev pub with_hook : Option (P → P × Bool) → P → P × Bool
  with_hook none priv = (priv, true)
  with_hook (some hook) priv = hook priv

  abbrev pub apply_to : {A : Type 0} → A → Option (A → P → P × Bool) → Option (P → P × Bool)
  apply_to a none = none
  apply_to a (some hook) = some (hook a)

  -- The calls of a hook in order, up to the first that fails.
  unfoldable pub until_failure : List (Option (P → P × Bool)) → P → P × Bool
  until_failure [] priv = (priv, true)
  until_failure (hook ∷ rest) priv = elim (with_hook hook priv).1 [
    | true ↦ until_failure rest (with_hook hook priv).0
    | false ↦ ((with_hook hook priv).0, false)
  ]

  -- Each plugin reads the arguments from the start.
  unfoldable pub packet_plugin_process_cmdline_opts :
      (argv : List Bytes) → List (PacketPlugin P) → P → P × Bool
  unfolding until_failure
  packet_plugin_process_cmdline_opts argv plugins priv =
      until_failure (map (λ (p : PacketPlugin P). apply_to argv p.process_cmdline_opts) plugins)
        priv

  unfoldable pub packet_plugin_process_config_file :
      (filepath : Bytes) → List (PacketPlugin P) → P → P × Bool
  unfolding until_failure
  packet_plugin_process_config_file filepath plugins priv =
      until_failure (map (λ (p : PacketPlugin P). apply_to filepath p.process_config_file) plugins)
        priv

  unfoldable pub packet_plugin_reset_session : List (PacketPlugin P) → P → P
  packet_plugin_reset_session [] priv = priv
  packet_plugin_reset_session (plugin ∷ rest) priv =
      packet_plugin_reset_session rest
        (elim plugin.reset_session [ none ↦ priv | some hook ↦ hook priv ])

  unfoldable pub packet_plugin_load_default_params : List (PacketPlugin P) → P → P
  packet_plugin_load_default_params [] priv = priv
  packet_plugin_load_default_params (plugin ∷ rest) priv =
      packet_plugin_load_default_params rest
        (elim plugin.load_default_params [ none ↦ priv | some hook ↦ hook priv ])

  unfoldable pub packet_plugin_set_auth_round : ℕ → List (PacketPlugin P) → P → P
  packet_plugin_set_auth_round round [] priv = priv
  packet_plugin_set_auth_round round (plugin ∷ rest) priv =
      packet_plugin_set_auth_round round rest
        (elim plugin.set_auth_round [ none ↦ priv | some hook ↦ hook round priv ])

  unfoldable pub packet_plugin_validate_params : List (PacketPlugin P) → P → P × Bool
  unfolding until_failure
  packet_plugin_validate_params plugins priv =
      until_failure (map (λ (p : PacketPlugin P). p.validate_params) plugins) priv

  -- A plugin with no hook passes the frame on.
  abbrev pub prepare_one : PacketPlugin P → EthEapFrame → P → Option (Prepared P)
  prepare_one plugin frame priv = elim plugin.prepare_frame [
    | none ↦ some (record { ok = true; frame = frame; priv = priv })
    | some hook ↦ hook frame priv
  ]

  unfoldable pub packet_plugin_prepare_frame :
      List (PacketPlugin P) → EthEapFrame → P → Option (Prepared P)
  packet_plugin_prepare_frame [] frame priv =
      some (record { ok = true; frame = frame; priv = priv })
  packet_plugin_prepare_frame (plugin ∷ rest) frame priv = do
    r ← prepare_one plugin frame priv
    elim r.ok [ true ↦ packet_plugin_prepare_frame rest r.frame r.priv | false ↦ some r ]

  abbrev pub receive_one : PacketPlugin P → EthEapFrame → P → Option (Received P)
  receive_one plugin frame priv = elim plugin.on_frame_received [
    | none ↦ some (record { ok = true; priv = priv })
    | some hook ↦ hook frame priv
  ]

  unfoldable pub packet_plugin_on_frame_received :
      List (PacketPlugin P) → EthEapFrame → P → Option (Received P)
  packet_plugin_on_frame_received [] frame priv = some (record { ok = true; priv = priv })
  packet_plugin_on_frame_received (plugin ∷ rest) frame priv = do
    r ← receive_one plugin frame priv
    elim r.ok [ true ↦ packet_plugin_on_frame_received rest frame r.priv | false ↦ some r ]
