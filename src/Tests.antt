-- ===== src/Tests.antt =====
-- Runs of the models on concrete inputs, and each theorem at an input that meets its hypotheses.
mod Timecode
mod Shows
mod Cue
mod Number
mod Undo
mod Midi
mod Artnet
mod Osc
mod Params
mod Controls
mod Dmx
mod Media
mod Edits
mod Surfaces
mod Clock
mod Session
