-- ===== src/Livekit/Worker/Reconnect.antt =====
-- A reconnect (src/livekit/client/audio.rs, `process_reconnect`).
use sayna.Prelude.{◌≡◌, not, ◌&&◌, ◌||◌, arith, is_none}
use sayna.Livekit.Worker.{Room, Client, process_reconnect}

-- On every path a reconnect keeps the buffered speech, and the client is connected after it exactly
-- if it was before, the room was joined, and the track was published where one is wanted. It reports
-- an error exactly if it lost the connection.
pub process_reconnect-outcome :
    (room : Room) (c : Client)
    → let (e, c') = process_reconnect room c in
      (c'.audio_pump.tts ≡ c.audio_pump.tts)
      × (c'.connected
          ≡ (c.connected && (room.room_joined && (not c.publish_audio || room.track_published))))
      × (is_none e ≡ (not c.connected || c'.connected))
unfolding process_reconnect
process_reconnect-outcome room c = ground arith
