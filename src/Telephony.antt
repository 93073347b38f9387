-- ===== src/Telephony.antt =====
-- The FreeSWITCH adapter of voiceagent/telephony/freeswitch: the audio streams of its calls (media.py)
-- and the connection on which it is commanded (esl_transport.py).
pub mod Esl
pub mod Media
