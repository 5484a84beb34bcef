-- ===== src/Migrate/Channels.antt =====
-- The rest of `ConvertConfig` of pkg/migrate/config.go: the channels, the gateway and the tools.
use picoclawnim.Base.{
  Bool, false, not, Option, none, some, List, [], ◌∷◌, ◌++◌, Str, str, str_eq, if◌then◌else◌,
}
use picoclawnim.Json.{
  Value, Fields, obj, end, field, get_string, get_float, get_bool, get_map, get_string_slice,
}
use picoclawnim.Config.Types.{Config, ChannelsConfig, GatewayConfig, ToolsConfig}
use picoclawnim.Config.Defaults.{default_config}
use picoclawnim.Migrate.Convert.{
  or_keep, or_keep_int, get_map_in, supported_channels, not_supported, convert_agents,
  convert_providers,
}

true_or_false : Option Bool → Bool
true_or_false none = false
true_or_false (some b) = b

-- The switch over the name of a channel.
unfoldable pub set_channel : Str → Fields → ChannelsConfig → ChannelsConfig
unfolding true_or_false or_keep or_keep_int
set_channel name m cs =
    let on = true_or_false (get_bool (str "enabled") m) in
    let from = get_string_slice (str "allow_from") m in
    if str_eq name (str "telegram")
    then (record cs {
      telegram = record {
        enabled = on;
        token = or_keep (get_string (str "token") m) cs.telegram.token;
        allow_from = from;
      };
    })
    else if str_eq name (str "discord")
    then (record cs {
      discord = record {
        enabled = on;
        token = or_keep (get_string (str "token") m) cs.discord.token;
        allow_from = from;
      };
    })
    else if str_eq name (str "whatsapp")
    then (record cs {
      whats_app = record {
        enabled = on;
        bridge_url = or_keep (get_string (str "bridge_url") m) cs.whats_app.bridge_url;
        allow_from = from;
      };
    })
    else if str_eq name (str "feishu")
    then (record cs {
      feishu = record {
        enabled = on;
        app_id = or_keep (get_string (str "app_id") m) cs.feishu.app_id;
        app_secret = or_keep (get_string (str "app_secret") m) cs.feishu.app_secret;
        encrypt_key = or_keep (get_string (str "encrypt_key") m) cs.feishu.encrypt_key;
        verification_token =
            or_keep (get_string (str "verification_token") m) cs.feishu.verification_token;
        allow_from = from;
      };
    })
    else if str_eq name (str "qq")
    then (record cs {
      qq = record {
        enabled = on;
        app_id = or_keep (get_string (str "app_id") m) cs.qq.app_id;
        app_secret = or_keep (get_string (str "app_secret") m) cs.qq.app_secret;
        allow_from = from;
      };
    })
    else if str_eq name (str "dingtalk")
    then (record cs {
      ding_talk = record {
        enabled = on;
        client_id = or_keep (get_string (str "client_id") m) cs.ding_talk.client_id;
        client_secret = or_keep (get_string (str "client_secret") m) cs.ding_talk.client_secret;
        allow_from = from;
      };
    })
    else if str_eq name (str "maixcam")
    then (record cs {
      maix_cam = record {
        enabled = on;
        host = or_keep (get_string (str "host") m) cs.maix_cam.host;
        port = or_keep_int (get_float (str "port") m) cs.maix_cam.port;
        allow_from = from;
      };
    })
    else cs

-- One turn of the loop over the channels.
unfoldable pub convert_channel : Str → Value → ChannelsConfig × List Str → ChannelsConfig × List Str
unfolding set_channel supported_channels not_supported
convert_channel name (obj m) (cs, warnings) =
    if not (supported_channels name)
    then (cs, warnings ++ (not_supported (str "Channel") name ∷ []))
    else (set_channel name m cs, warnings)
convert_channel name v acc = acc

unfoldable pub convert_channels : Fields → ChannelsConfig × List Str → ChannelsConfig × List Str
unfolding convert_channel
convert_channels end acc = acc
convert_channels (field name v fs) acc = convert_channels fs (convert_channel name v acc)

unfoldable pub fields_or_end : Option Fields → Fields
fields_or_end none = end
fields_or_end (some fs) = fs

unfoldable pub convert_gateway : Option Fields → GatewayConfig → GatewayConfig
unfolding or_keep or_keep_int
convert_gateway none g = g
convert_gateway (some m) g = record {
  host = or_keep (get_string (str "host") m) g.host;
  port = or_keep_int (get_float (str "port") m) g.port;
}

unfoldable pub convert_tools : Option Fields → ToolsConfig → ToolsConfig
unfolding or_keep or_keep_int
convert_tools none t = t
convert_tools (some m) t = record {
  web = record {
    search = record {
      api_key = or_keep (get_string (str "api_key") m) t.web.search.api_key;
      max_results = or_keep_int (get_float (str "max_results") m) t.web.search.max_results;
    };
  };
}

-- The configuration and the warnings; there is no error.
unfoldable pub convert_config : Fields → Config × List Str
unfolding convert_agents convert_providers convert_channels convert_gateway convert_tools get_map_in
    fields_or_end default_config
convert_config m =
    let c = default_config in
    let (ps, w1) =
      convert_providers (fields_or_end (get_map (str "providers") m)) (c.providers, []) in
    let (cs, w2) = convert_channels (fields_or_end (get_map (str "channels") m)) (c.channels, w1) in
    let search = get_map_in (str "search") (get_map_in (str "web") (get_map (str "tools") m)) in
    (
      record {
        agents = convert_agents (get_map_in (str "defaults") (get_map (str "agents") m)) c.agents;
        channels = cs;
        providers = ps;
        gateway = convert_gateway (get_map (str "gateway") m) c.gateway;
        tools = convert_tools search c.tools;
      },
      w2,
    )
