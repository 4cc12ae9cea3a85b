-- ===== src/Plugins/Chain.antt =====
-- How a frame flows through the selected plugins.
use minieap.Prelude.{
  Bool, true, false, List, [], ◌∷◌, ◌++◌, Option, none, some, Bytes, ◌≡◌, refl, Option-cases, inl,
  inr,
}
use minieap.LinkedList.{lookup_data}
use minieap.LinkedList.Sequence.{insert_data-append}
use minieap.Plugins.{
  PacketPlugin, Prepared, PluginLists, select_packet_plugin, plugin_name_cmp,
  packet_plugin_prepare_frame,
}

module _ {P : Type 0} where
  -- The rest of a chain, behind the plugins whose result is given: a failure ends it.
  abbrev pub go_on : List (PacketPlugin P) → Prepared P → Option (Prepared P)
  go_on ys r = elim r.ok [ true ↦ packet_plugin_prepare_frame ys r.frame r.priv | false ↦ some r ]

  -- What `select_packet_plugin` does: an unknown name changes nothing.
  pub data Selected (name : Bytes) (lists after : PluginLists P) : Bool → Type 0 where
    unknown :
        lookup_data lists.packet_plugin_list name plugin_name_cmp ≡ none
        → after ≡ lists
        → Selected name lists after false
    found :
        (info : PacketPlugin P)
        → lookup_data lists.packet_plugin_list name plugin_name_cmp ≡ some info
        → after.packet_plugin_list ≡ lists.packet_plugin_list
        → after.active_packet_plugin_list ≡ lists.active_packet_plugin_list ++ info ∷ []
        → Selected name lists after true

  -- A plugin is selected under its name, behind those selected before, as often as it is named;
  -- a name that no plugin has changes nothing and is reported.
  pub select_packet_plugin-Selected :
      (name : Bytes) (lists : PluginLists P)
      → Selected name lists (select_packet_plugin name lists).0 (select_packet_plugin name lists).1
  unfolding select_packet_plugin
  select_packet_plugin-Selected name lists =
      elim (Option-cases (lookup_data lists.packet_plugin_list name plugin_name_cmp)) [
        | inl e ↦ rw (e, select_packet_plugin) (unknown e refl)
        | inr (info, e) ↦
            rw (e, select_packet_plugin)
              (found info e refl (insert_data-append lists.active_packet_plugin_list info))
      ]
