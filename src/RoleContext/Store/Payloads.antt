-- ===== src/RoleContext/Store/Payloads.antt =====
-- `payloadHash`: the value whose stable text is hashed for a plan, and the marker of a plan.
use agent_router.Prelude.{ℕ, List, [], ◌∷◌, ◌++◌, Text}
use agent_router.Protocol.{Ident}
use agent_router.Json.{Json, Items, Fields, canonical}
use agent_router.RoleContext.Store.Rows.{PortableKind, Origin, Payload, Tools}

-- The texts that are written in the source.
unfoldable pub name_of_kind : PortableKind → Text
name_of_kind PortableKind.user_message =
    85 ∷ 83 ∷ 69 ∷ 82 ∷ 95 ∷ 77 ∷ 69 ∷ 83 ∷ 83 ∷ 65 ∷ 71 ∷ 69 ∷ []
name_of_kind PortableKind.assistant_message =
    65 ∷ 83 ∷ 83 ∷ 73 ∷ 83 ∷ 84 ∷ 65 ∷ 78 ∷ 84 ∷ 95 ∷ 77 ∷ 69 ∷ 83 ∷ 83 ∷ 65 ∷ 71 ∷ 69 ∷ []
name_of_kind PortableKind.notice = 78 ∷ 79 ∷ 84 ∷ 73 ∷ 67 ∷ 69 ∷ []
name_of_kind PortableKind.route_task = 82 ∷ 79 ∷ 85 ∷ 84 ∷ 69 ∷ 95 ∷ 84 ∷ 65 ∷ 83 ∷ 75 ∷ []
name_of_kind PortableKind.route_result =
    82 ∷ 79 ∷ 85 ∷ 84 ∷ 69 ∷ 95 ∷ 82 ∷ 69 ∷ 83 ∷ 85 ∷ 76 ∷ 84 ∷ []
name_of_kind PortableKind.tool_call = 84 ∷ 79 ∷ 79 ∷ 76 ∷ 95 ∷ 67 ∷ 65 ∷ 76 ∷ 76 ∷ []
name_of_kind PortableKind.tool_result = 84 ∷ 79 ∷ 79 ∷ 76 ∷ 95 ∷ 82 ∷ 69 ∷ 83 ∷ 85 ∷ 76 ∷ 84 ∷ []
name_of_kind PortableKind.history_visible =
    72 ∷ 73 ∷ 83 ∷ 84 ∷ 79 ∷ 82 ∷ 89 ∷ 95 ∷ 86 ∷ 73 ∷ 83 ∷ 73 ∷ 66 ∷ 76 ∷ 69 ∷ []
name_of_kind PortableKind.artifact_ref =
    65 ∷ 82 ∷ 84 ∷ 73 ∷ 70 ∷ 65 ∷ 67 ∷ 84 ∷ 95 ∷ 82 ∷ 69 ∷ 70 ∷ []
name_of_kind PortableKind.summary = 83 ∷ 85 ∷ 77 ∷ 77 ∷ 65 ∷ 82 ∷ 89 ∷ []

unfoldable pub key_role_id : Text
key_role_id = 114 ∷ 111 ∷ 108 ∷ 101 ∷ 95 ∷ 105 ∷ 100 ∷ []

unfoldable pub key_target_work_session_id : Text
key_target_work_session_id =
    116 ∷ 97 ∷ 114 ∷ 103 ∷ 101 ∷ 116 ∷ 95 ∷ 119 ∷ 111 ∷ 114 ∷ 107 ∷ 95 ∷ 115 ∷ 101 ∷ 115 ∷ 115 ∷ 105
    ∷ 111 ∷ 110 ∷ 95 ∷ 105 ∷ 100 ∷ []

unfoldable pub key_from_seq : Text
key_from_seq = 102 ∷ 114 ∷ 111 ∷ 109 ∷ 95 ∷ 115 ∷ 101 ∷ 113 ∷ []

unfoldable pub key_through_seq : Text
key_through_seq = 116 ∷ 104 ∷ 114 ∷ 111 ∷ 117 ∷ 103 ∷ 104 ∷ 95 ∷ 115 ∷ 101 ∷ 113 ∷ []

unfoldable pub key_entries : Text
key_entries = 101 ∷ 110 ∷ 116 ∷ 114 ∷ 105 ∷ 101 ∷ 115 ∷ []

unfoldable pub key_context_seq : Text
key_context_seq = 99 ∷ 111 ∷ 110 ∷ 116 ∷ 101 ∷ 120 ∷ 116 ∷ 95 ∷ 115 ∷ 101 ∷ 113 ∷ []

unfoldable pub key_source_kind : Text
key_source_kind = 115 ∷ 111 ∷ 117 ∷ 114 ∷ 99 ∷ 101 ∷ 95 ∷ 107 ∷ 105 ∷ 110 ∷ 100 ∷ []

unfoldable pub key_source_id : Text
key_source_id = 115 ∷ 111 ∷ 117 ∷ 114 ∷ 99 ∷ 101 ∷ 95 ∷ 105 ∷ 100 ∷ []

unfoldable pub key_portable_kind : Text
key_portable_kind = 112 ∷ 111 ∷ 114 ∷ 116 ∷ 97 ∷ 98 ∷ 108 ∷ 101 ∷ 95 ∷ 107 ∷ 105 ∷ 110 ∷ 100 ∷ []

unfoldable pub key_content_hash : Text
key_content_hash = 99 ∷ 111 ∷ 110 ∷ 116 ∷ 101 ∷ 110 ∷ 116 ∷ 95 ∷ 104 ∷ 97 ∷ 115 ∷ 104 ∷ []

unfoldable pub marker_prefix : Text
marker_prefix =
    65 ∷ 71 ∷ 69 ∷ 78 ∷ 84 ∷ 82 ∷ 79 ∷ 85 ∷ 84 ∷ 69 ∷ 82 ∷ 95 ∷ 67 ∷ 79 ∷ 78 ∷ 84 ∷ 69 ∷ 88 ∷ 84
    ∷ 95 ∷ 83 ∷ 89 ∷ 78 ∷ 67 ∷ 58 ∷ []

unfoldable pub entry_json : ℕ × Origin → Json
entry_json (seq, o) = Json.object (
    Fields.field key_context_seq (Json.number seq) (
      Fields.field key_source_kind (Json.string o.source_kind) (
        Fields.field key_source_id (Json.string o.source_id) (
          Fields.field key_portable_kind (Json.string (name_of_kind o.portable_kind))
            (Fields.field key_content_hash (Json.string o.content_hash) Fields.no_field)))))

unfoldable pub entries_json : List (ℕ × Origin) → Items
entries_json [] = Items.no_item
entries_json (x ∷ xs) = Items.item (entry_json x) (entries_json xs)

unfoldable pub payload_json : (Ident → Text) → Payload → Json
payload_json name p = Json.object (
    Fields.field key_role_id (Json.string (name p.role_id)) (
      Fields.field key_target_work_session_id (Json.string (name p.target_work_session_id)) (
        Fields.field key_from_seq (Json.number p.from_seq) (
          Fields.field key_through_seq (Json.number p.through_seq)
            (Fields.field key_entries (Json.array (entries_json p.origins)) Fields.no_field)))))

unfoldable pub payload_hash_of : Tools → Payload → Text
payload_hash_of w p = w.sha256 (canonical w.limits.writer (payload_json w.name_of p))

unfoldable pub marker_of : (operation_id payload_hash : Text) → Text
marker_of op hash = marker_prefix ++ op ++ 58 ∷ hash
