-- ===== src/Lib.antt =====
-- A verification of the AI assistant driver, a Go program that drives an ESPHome voice assistant: it
-- takes audio from the device, has it transcribed over the Wyoming protocol, asks a language model,
-- which may call tools, has the answer spoken, and sends the device's events in between.
--
-- The parts and their files, with the paths of the repository:
--   Common        shared helpers: Boolean tests on native numbers, lists, byte texts, results,
--                 signed numbers, bounded channels with a dropping send, `|` of shifted bytes; Maps
--                 has Go maps as lists of entries, and the quotient by what their keys find.
--   History       internal/history/manager.go: the window of ten messages (add_locked is AddMessage
--                 up to the unlock), the file (save_internal, new_conversation_manager), the summary;
--                 Schedules has the parts of its methods as steps that mix.
--   Config        internal/config/config.go: the defaults, the required values, the log level.
--   Vad           internal/vad/detector.go, generic in the float64 operations (Vad/Arithmetic).
--   Llm           internal/llm/tool.go and tool_executor.go: the registry and the calls, and Registry
--                 its map up to order; Ollama is internal/llm/ollama/client.go over the client
--                 library, and Schema its conversion of the tools' parameters.
--   Phases        internal/phases: Thinking.run with the tool loop, Reply.run.
--   Esphome       Command and Event are the messages with the controller; Wire is
--                 internal/esphome/esphome_client.go (varints, frames, the read loop, routing, in
--                 Requests the requests that wait for a response, in Sending the other messages,
--                 with the peer's view of them in Sent, in Connecting Connect, Login and Close, with
--                 Connect of client.go); Client is
--                 internal/esphome/client.go (handlers, commands, retries; Workers and Listeners are
--                 its goroutines beside the reconnection handler and Close, Panics where they fail).
--   Controller    internal/controller: Handlers has one function per handler, each cut where a service
--                 is called; run is Run on the events in the order in which its select takes them;
--                 Triggers is what the HTTP handlers call; Conversation is the abstract view.
--   Wyoming       internal/wyoming/client.go: events on the wire; Events is internal/wyoming/event.go,
--                 and Sequences several events in turn.
--   Stt           internal/stt/wyoming.go: the recognizer on top of them; Heard has its events on the
--                 wire.
--   Sessions      the Controller with the transcriber of Stt, and with its detector, in the place of the
--                 service: a listening phase from the wake word to the transcript; Device has the
--                 device's messages before it.
--   Tts           internal/tts: the synthesizer, the WAV header, the conversion to 16-bit mono, the
--                 saved file (Files); Spoken has the synthesizer's events on the wire.
--   OpenWrt       internal/tools/openwrt/client.go: the ARP table, the traffic counters, the
--                 router's configuration, the fallbacks; Orders and Reordered are on the order in
--                 which Go iterates over it; Tables prints what the parsers read, with any number
--                 of blanks between the columns; Requests and Web have the client, its gateway, the
--                 login and the other requests, Tools the two tools.
--   Weather       internal/tools/weather: the place and the forecast (its types in Data); its
--                 requests (Web); the tool (Tool).
--   Speedtest     internal/tools/speedtest: the measurement and the tool.
--   Http          internal/http: the served files (Http), the routes (Handlers) and the problem
--                 documents (Problem).
--   Shutdown      internal/shutdown/shutdown.go beside cmd/ai-assistant-driver/main.go: main adds
--                 functions, the context is cancelled at any time, and the goroutine of New runs the
--                 list as it then is; Order has when which of them run.
--   Setup         cmd/ai-assistant-driver: main up to where it waits, as stages that open, close and add
--                 to the shutdown; Services has the constructors of setup.go that it calls.
--
-- State is passed explicitly: each component's struct is a record, each operation a function
-- from it. Bytes and Go strings are lists of numbers. Machine integers keep their wrap-around
-- where the program can reach it. What the program only calls is a parameter: JSON and its round
-- trip (History.Codec, Wyoming.Codec), the operations on float64 (Vad.Arithmetic.Float,
-- Tts.Files.Truncating), the language model, the tools and the services of a phase, over a world
-- of their own. The operating system and the network answer from values: what a write or a
-- rename does (History.Answers), after how many writes a link breaks and what it still delivers
-- (Wyoming.Link), which dials and writes work (Stt.Network), which sends work (Esphome.Client),
-- what the router and the system say (OpenWrt.Answers), what the weather services say
-- (Weather.WeatherAnswers), what the downloads and the clock give (Speedtest.NetAnswers), how
-- far each attempt to connect gets (Esphome.Wire.Connecting.Attempt). Channels are the lists of
-- what they hold; the blocking send of the controller's commands is a log.
--
-- Bounds and fuel: a varint is written with nine bytes before the last, which a uint64 never
-- exceeds; the read loop has a round for every byte that arrives and one for the end, and every
-- frame takes a byte; the synthesizer reads at most as many events as it is given fuel for, and
-- the theorem on it gives as many as were written, or more; the tool loop has fuel for its
-- rounds, an exchange of n rounds needs n, and a run that has used it up is told apart from one
-- that returned.
--
-- Not modelled: the connections of the HTTP server (`serving` tells that they are accepted); the
-- noise handshake of the API library and the bodies of its messages; the goroutines' interleavings
-- outside Shutdown, the history, the requests to the device, its commands and its messages; logging
-- and timeouts. The laws of a JSON codec are for the texts and values that it keeps (encoding/json
-- replaces what is no UTF-8), and a slice of a huge announced length, which `make` refuses with a
-- panic, is here a read that fails. Where a tool is called, its method is taken to return: a panic
-- in it, which the tools' own modules have as a value, ends the process. That a read loop ends
-- during an attempt to connect counts when the attempt ends, since no step of it looks at that
-- before. A Go map is the list of its entries in the order of one iteration. A panic is a value
-- where an index, a type assertion or a nil dereference can fail (OpenWrt.Panic, Weather.Report,
-- Phases.Outcome, Esphome.Client.Listeners.System).
pub mod Common
pub mod Config
pub mod History
pub mod Vad
pub mod Llm
pub mod Phases
pub mod Esphome
pub mod Controller
pub mod Wyoming
pub mod Stt
pub mod Sessions
pub mod Tts
pub mod Shutdown
pub mod OpenWrt
pub mod Weather
pub mod Http
pub mod Speedtest
pub mod Setup
